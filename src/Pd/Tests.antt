-- ===== src/Pd/Tests.antt =====
-- Runs of the pointer directory of prs/lib/ds/pd.c, and each theorem at an input.
use prs.Base.{ℕ, ◌+◌, ◌^◌, ◌≤◌, ◌<◌, ◌≡◌, refl, true, false, none, some, arith, ◌==◌, if◌then◌else◌}
use prs.Base.Result.{ok, out_of_memory}
use prs.Base.Scan.{scan}
use prs.Pd.{
  Pd, CreateParams, get_entry, create, can_take, is_allocatable, test_refcnt, get_id,
  alloc_and_lock, alloc_header, lock, lock_next, unlock, unlock_next, id_invalid,
}
use prs.Pd.Count.{count}
use prs.Pd.Capacity.{fill, created, fill-capacity}

program : Unit {0}
unfolding create alloc_and_lock scan can_take is_allocatable test_refcnt get_id get_entry
    alloc_header lock lock_next unlock unlock_next
program = tt

abbrev params : CreateParams
params = record { max_entries = 4; area = none }

abbrev four : (ℕ → ℕ) → Pd
four header = record {
  area = false;
  header = header;
  ptr = λ j. 100 + j;
  max_entries = 4;
  max_entries_mask = 3;
  write_index = 1;
}

abbrev one_lock : Pd
one_lock = four (λ j. if j == 1 then count 1 1 else 0)

-- Index 1 is in use, so that the next ID is 2; dropped, its entry is taken again under ID 5.
reuse :
    let a = (alloc_and_lock one_lock 7).0 in
    let b = (unlock a 1).0 in
    let c = alloc_and_lock (record b { write_index = 5 }) 9 in
    ((alloc_and_lock one_lock 7).2 ≡ 2)
    × ((unlock a 1).1 ≡ true)
    × (c.2 ≡ 5)
    × ((lock c.0 1).1 ≡ none)
    × ((lock c.0 5).1 ≡ some 9)
unfolding program
reuse = (refl, refl, refl, refl, refl)

fill-capacity_example :
    let pd = fill 4 (λ i. i) (created 2 (λ i. i) false params) in
    (4 < 2 ^ 2 → ((alloc_and_lock pd 5).1 ≡ ok) × ((alloc_and_lock pd 5).2 ≡ 5))
    × (4 ≡ 2 ^ 2 → (q : ℕ) → alloc_and_lock pd q ≡ (pd, out_of_memory, id_invalid))
    × ((i : ℕ) → 0 < i → i ≤ 4 → (lock pd i).1 ≡ some i)
fill-capacity_example =
    fill-capacity 2 (λ i. i) false params 4 (omega arith) (omega arith) refl (omega arith)
