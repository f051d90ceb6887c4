-- ===== src/Mpsciq/Tests.antt =====
-- Runs of the queue of prs/lib/ds/mpsciq.c, and each theorem at an input.
use prs.Base.{◌≡◌, refl, some, [], ◌∷◌, arith, ◌==◌, if◌then◌else◌}
use prs.Mpsciq.{Mpsciq, remove}
use prs.Mpsciq.Queue.{IsQueue, Holds}
use prs.Mpsciq.Content.{Content, remove-Content}

-- Node 32 is the newest, 16 the oldest; the links to 32 are not built.
abbrev two : Mpsciq
two = record {
  next = λ j. if j == 32 then 16 else 0;
  prev = λ j. 0;
  head = 32;
  reverse_tail = 16;
  reverse_head = 16;
  node_offset = 8;
}

two-IsQueue : IsQueue two (32 ∷ []) (16 ∷ [])
two-IsQueue = record {
  fresh = (refl, refl, omega arith, refl, tt);
  linked = (refl, refl, omega arith, refl, tt);
  apart = λ x h. ground arith;
  head = refl;
  reverse_tail = refl;
  reverse_head = refl;
  small = omega arith;
}

two-Holds : Holds two (32 ∷ 16 ∷ [])
two-Holds = record { ys = 32 ∷ []; zs = 16 ∷ []; parts = refl; is = two-IsQueue }

abbrev linked : Mpsciq
linked = record two { prev = λ j. if j == 16 then 32 else 0; reverse_tail = 32 }

linked-IsQueue : IsQueue linked [] (32 ∷ 16 ∷ [])
linked-IsQueue = record {
  fresh = tt;
  linked = (refl, refl, omega arith, refl, (refl, refl, omega arith, refl, tt));
  apart = λ x h. absurd (ground arith);
  head = refl;
  reverse_tail = refl;
  reverse_head = refl;
  small = omega arith;
}

two-Content : Content two (16 ∷ 32 ∷ [])
two-Content = record { nodes = 32 ∷ 16 ∷ []; holds = two-Holds; order = refl }

remove-Content_example :
    (r : Mpsciq) × (remove 3 two 16 ≡ some r)
    × Content r (32 ∷ [])
    × (r.next 16 ≡ 0)
    × (r.prev 16 ≡ 0)
remove-Content_example = remove-Content two (16 ∷ 32 ∷ []) two-Content 3 16 (omega arith) refl
