-- ===== src/Mpmcq/Tests.antt =====
-- Runs of the queue of prs/lib/ds/mpmcq.c, and each theorem at an input.
use prs.Base.{◌≡◌, refl, true, false, none, some, [], ◌∷◌, arith}
use prs.Base.Result.{ok, unknown}
use prs.Base.Partial.{◌>>=◌}
use prs.Base.Scan.{scan}
use prs.Pd
use prs.Pd.{Pd}
use prs.Mpmcq.{
  Mpmcq, create, push, push_loop, push_new, push_node, alloc_node, lock, unlock, pop, pop_loop,
  pop_node, drain, destroy,
}
use prs.Mpmcq.Values.{Values, Pops, pop-Values}
use prs.Mpmcq.Push.{Room, Pushes, push-Pushes}
use prs.Mpmcq.Drain.{Destroys, destroy-ends}

abbrev directory : Pd
directory = record {
  area = false;
  header = λ j. 0;
  ptr = λ j. 0;
  max_entries = 8;
  max_entries_mask = 7;
  write_index = 1;
}

abbrev fresh_queue : Mpmcq
fresh_queue = record {
  pd = directory;
  owns_pd = true;
  head = Pd.id_invalid;
  tail = Pd.id_invalid;
  nodes = λ a. none;
}

created : create false true none (some directory) (λ a. none) ≡ some fresh_queue
unfolding create
created = refl

-- A queue that was never used.
popped_first : pop 2 fresh_queue ≡ some (fresh_queue, unknown, none)
unfolding pop pop_loop lock
popped_first = refl

abbrev fresh_queue-Values : Values fresh_queue []
fresh_queue-Values = record {
  consumed = false;
  cells = [];
  linked = tt;
  head = refl;
  tail = refl;
  same = refl;
}

room : Room fresh_queue 3 48 1
unfolding Pd.can_take Pd.is_allocatable Pd.test_refcnt Pd.get_id Pd.get_entry
room = record {
  sized = record {
    some_bits = omega arith;
    few_entries = omega arith;
    entries = refl;
    mask = refl;
  };
  small = omega arith;
  after = omega arith;
  before = omega arith;
  takes = refl;
  busy = λ m after before. ground arith;
  valid = omega arith;
  some_node = ground arith;
  fresh = refl;
}

push-Pushes_example : Pushes fresh_queue 1 48 7 (7 ∷ [])
push-Pushes_example = push-Pushes fresh_queue [] 7 0 room fresh_queue-Values

abbrev one : Pushes fresh_queue 1 48 7 (7 ∷ [])
one = push-Pushes fresh_queue [] 7 0 room fresh_queue-Values

pop-Values_example : Pops one.left 2 ok (some 7) []
pop-Values_example = pop-Values one.left (7 ∷ []) 0 one.leaves

destroy-ends_example : Destroys one.left 2 2
destroy-ends_example = destroy-ends one.left (7 ∷ []) 0 one.leaves

-- The node of the last value is still allocated when the queue is destroyed.
last_node :
    (destroy 2 2 fresh_queue >>= λ (left, freed). left.nodes 48) ≡ none
    × (push 1 fresh_queue 48 7 >>= λ (pushed, result).
        destroy 2 2 pushed >>= λ (left, freed). left.nodes 48)
      ≡ some (record { next = Pd.id_invalid; consumed = true; value = 7 })
unfolding destroy drain push push_new push_loop push_node alloc_node lock unlock pop pop_loop
    pop_node Pd.alloc_and_lock Pd.take_index scan Pd.can_take Pd.is_allocatable Pd.test_refcnt
    Pd.get_id Pd.get_entry Pd.alloc_header Pd.lock Pd.lock_with Pd.lock_next Pd.unlock
    Pd.unlock_with Pd.unlock_next
last_node = (refl, refl)
