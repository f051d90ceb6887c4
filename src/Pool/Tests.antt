-- ===== src/Pool/Tests.antt =====
-- Runs of the pool of prs/lib/ds/pool.c, and each theorem at an input.
use prs.Base.{ℕ, ◌^◌, ◌≡◌, refl, true, false, none, some, [], arith, ◌==◌, if◌then◌else◌}
use prs.Base.Scan.{scan}
use prs.Pool.{
  Pool, put, create, destroy, can_take, get_entry, alloc, free, alloc_and_lock, lock_first, lock,
  unlock, unlock_dest, get_id_of,
}
use prs.Pool.Header.{id_invalid, is_allocatable, test_alloc, get_id}
use prs.Pool.Fields.{fields, encode}
use prs.Pool.Alloc.{IsSized}
use prs.Pool.Reuse.{stale-lock}

program : Unit {0}
unfolding create alloc alloc_and_lock lock_first lock unlock unlock_dest get_id_of destroy free
program = tt

abbrev four : (ℕ → ℕ) → Pool
four header = record {
  area = false;
  header = header;
  bytes = λ _. [];
  data_size = 8;
  entry_size = 16;
  max_entries = 4;
  max_entries_mask = 3;
  write_index = 1;
}

-- What `prs_pool_create` leaves, one entry with one reference, and no entry that is free.
abbrev fresh : Pool
fresh = four (λ j. if j == 0 then 2 ^ 63 else 0)

sized : (h : ℕ → ℕ) → IsSized 2 (four h)
sized h = omega arith

-- Three allocations fill a pool of four entries.
three_allocations :
    let a = (alloc fresh).0 in
    let b = (alloc a).0 in
    ((alloc fresh).2 ≡ 1)
    × ((alloc a).2 ≡ 2)
    × ((alloc b).2 ≡ 3)
    × ((alloc (alloc b).0).2 ≡ id_invalid)
unfolding program scan can_take is_allocatable test_alloc
three_allocations = (refl, refl, refl, refl)

-- Entry 1 is allocated as 5 after it was 1.
stale-lock_example :
    let r = alloc_and_lock (record fresh { write_index = 5 }) [] in
    (r.1 ≡ some 1)
    × (r.2 ≡ 5)
    × (lock r.0 1 ≡ (r.0, none))
    × (lock r.0 5 ≡ (put r.0 1 (encode (fields true 2 5)), some 1))
unfolding can_take is_allocatable test_alloc get_entry get_id
stale-lock_example =
    stale-lock {k = 2} {p = record fresh { write_index = 5 }} (omega arith) (omega arith) 5 1 []
      (omega arith) (omega arith) refl (λ m lo hi. absurd (omega arith)) refl (omega arith)
