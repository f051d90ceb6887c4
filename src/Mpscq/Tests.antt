-- ===== src/Mpscq/Tests.antt =====
-- Runs of the queue of prs/lib/ds/mpscq.c, and each theorem at an input.
use prs.Base.{ℕ, ◌≡◌, ◌≢◌, refl, some, [], ◌∷◌, arith, ◌==◌, if◌then◌else◌}
use prs.Base.Result.{ok, out_of_memory}
use prs.Mpsciq.Queue.{IsQueue}
use prs.Mpscq.{Mpscq, push, remove, begin, get_data}
use prs.Mpscq.Values.{Values, push-Values, begin-Values}

-- Node 32 is the newest, 16 the oldest; the links to 32 are not built.
abbrev two : Mpscq
two = record {
  links = record {
    next = λ j. if j == 32 then 16 else 0;
    prev = λ j. 0;
    head = 32;
    reverse_tail = 16;
    reverse_head = 16;
    node_offset = 0;
  };
  data_of = λ j. if j == 32 then 7 else 5;
}

two-IsQueue : IsQueue two.links (32 ∷ []) (16 ∷ [])
two-IsQueue = record {
  fresh = (refl, refl, omega arith, refl, tt);
  linked = (refl, refl, omega arith, refl, tt);
  apart = λ x h. ground arith;
  head = refl;
  reverse_tail = refl;
  reverse_head = refl;
  small = omega arith;
}

abbrev two-Values : Values two (5 ∷ 7 ∷ [])
two-Values = record {
  nodes = 16 ∷ 32 ∷ [];
  content = record {
    nodes = 32 ∷ 16 ∷ [];
    holds = record { ys = 32 ∷ []; zs = 16 ∷ []; parts = refl; is = two-IsQueue };
    order = refl;
  };
  same = refl;
}

push-Values_example :
    Values (push two 48 9).0 (5 ∷ 7 ∷ 9 ∷ [])
    × ((push two 48 9).1 ≡ ok)
    × (push two 0 9 ≡ (two, out_of_memory))
push-Values_example =
    push-Values two (5 ∷ 7 ∷ []) two-Values 48 9
      (record { some_node = omega arith; outside = refl; next = refl; prev = refl }) (omega arith)

begin-Values_example :
    (r : Mpscq) × (s : Mpscq) × (node : ℕ) × (begin 3 two ≡ some (r, node))
    × (node ≢ 0)
    × (get_data r node ≡ 5)
    × (remove 3 r node ≡ some s)
    × Values s (7 ∷ [])
begin-Values_example = begin-Values two 5 (7 ∷ []) 3 two-Values (omega arith)
