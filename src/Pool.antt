-- ===== src/Pool.antt =====
-- prs/lib/ds/pool.c and the macros of include/prs/pool.h. A pool is an array of entries, each a
-- header word and its data bytes; a pointer into the pool is the index of its entry. The operations
-- here run without interference, so a compare-and-exchange succeeds at its first attempt.
-- Run-time checks are on (include/prs/config.h), assertions off.
pub mod Header
pub mod Fields
pub mod Alloc
pub mod Refs
pub mod Reuse
pub mod Lifecycle
mod Tests
use prs.Base.{
  ℕ, zero, suc, ◌+◌, ◌-◌, ◌*◌, Bool, true, false, Option, none, some, List, bit_and, ◌==◌, ltb,
  if◌then◌else◌, word, update, replicate, take,
}
use prs.Base.Scan.{scan}
use Header.{
  id_mask, id_invalid, get_id, is_allocatable, alloc_header, free_next, lock_first_next, lock_next,
  unlock_next, alloc_mask,
}

-- `header` and `bytes` are the array `entries`; `area` is whether the caller supplied the memory.
pub record Pool : Type 0 where
  pub area : Bool
  pub header : ℕ → ℕ
  pub bytes : ℕ → List ℕ
  pub data_size : ℕ
  pub entry_size : ℕ
  pub max_entries : ℕ
  pub max_entries_mask : ℕ
  pub write_index : ℕ

-- `struct prs_pool_create_params`; the area is what its entries hold.
pub record CreateParams : Type 0 where
  pub max_entries : ℕ
  pub data_size : ℕ
  pub area : Option ((ℕ → ℕ) × (ℕ → List ℕ))

-- `offsetof(struct prs_pool_entry, data)` and `sizeof(struct prs_pool)`.
abbrev pub data_offset : ℕ
data_offset = 8

abbrev pub pool_size : ℕ
pool_size = 56

-- The position of the entry, which `prs_pool_get_entry` turns into an address.
unfoldable pub get_entry : Pool → ℕ → ℕ
get_entry p id = bit_and id p.max_entries_mask

unfoldable pub struct_size : CreateParams → ℕ
struct_size params =
    word (pool_size + word (word (params.data_size + data_offset) * params.max_entries))

-- The part of `prs_pool_create` behind the allocations.
unfoldable pub init : CreateParams → Bool → (ℕ → ℕ) → (ℕ → List ℕ) → Pool
unfolding get_entry
init params area header bytes =
    let p : Pool = record {
      area = area;
      header = header;
      bytes = bytes;
      data_size = params.data_size;
      entry_size = word (params.data_size + data_offset);
      max_entries = params.max_entries;
      max_entries_mask = params.max_entries - 1;
      write_index = 1;
    } in
    record p { header = update header (get_entry p 0) alloc_mask }

-- `pool_memory` and `entry_memory` say whether the two allocations succeed. With the pool comes the
-- number of blocks that are allocated and not freed on return.
unfoldable pub create : CreateParams → (pool_memory entry_memory : Bool) → Option Pool × ℕ
unfolding init
create params pool_memory entry_memory = elim params.area [
  | some (header, bytes) ↦ (some (init params true header bytes), 0)
  | none ↦
      if pool_memory
      then (if entry_memory
          then (some (init params false (λ _. 0) (λ _. replicate params.data_size 0)), 2)
          else (none, 0))
      else (none, 0)
]

-- The number of blocks freed.
unfoldable pub destroy : Pool → ℕ
destroy p = if p.area then 0 else 2

-- Whether the loop of `prs_pool_alloc` stops at index `i`.
unfoldable pub can_take : Pool → ℕ → Bool
can_take p i = is_allocatable (p.header (get_entry p i)) i

-- What `prs_pool_alloc` does with the index that the loop has found: the pool, the pointer, `*id`.
unfoldable pub take_index : Pool → Option ℕ → Pool × Option ℕ × ℕ
unfolding get_entry alloc_header
take_index p none = (p, none, id_invalid)
take_index p (some i) = (
  record p {
    header = update p.header (get_entry p i) (alloc_header i);
    write_index = word (i + 1);
  },
  some (get_entry p i),
  i,
)

unfoldable pub alloc : Pool → Pool × Option ℕ × ℕ
unfolding take_index
alloc p =
    take_index p
      (scan p.max_entries (can_take p) p.write_index (word (p.write_index + p.max_entries)))

-- Stores what a transition yields in the header of an entry.
abbrev pub put : Pool → ℕ → ℕ → Pool
put p entry h = record p { header = update p.header entry h }

unfoldable pub free : Pool → ℕ → Pool
unfolding get_entry free_next
free p id = elim (free_next id (p.header (get_entry p id))) [
  | none ↦ p
  | some h ↦ put p (get_entry p id) h
]

unfoldable pub lock_first : Pool → ℕ → Pool
unfolding get_entry lock_first_next
lock_first p id = elim (lock_first_next id (p.header (get_entry p id))) [
  | none ↦ p
  | some h ↦ put p (get_entry p id) h
]

-- The part of `prs_pool_alloc_and_lock` behind the allocation.
unfoldable pub fill : List ℕ → Pool × Option ℕ × ℕ → Pool × Option ℕ × ℕ
fill bytes (q, none, id) = (q, none, id)
fill bytes (q, some entry, id) = (
  lock_first (record q { bytes = update q.bytes entry (take q.data_size bytes) }) id,
  some entry,
  id,
)

unfoldable pub alloc_and_lock : Pool → List ℕ → Pool × Option ℕ × ℕ
unfolding fill
alloc_and_lock p bytes = fill bytes (alloc p)

unfoldable pub lock : Pool → ℕ → Pool × Option ℕ
unfolding get_entry lock_next
lock p id =
    if id == id_invalid then (p, none) else elim (lock_next id (p.header (get_entry p id))) [
      | none ↦ (p, none)
      | some h ↦ (put p (get_entry p id) h, some (get_entry p id))
    ]

-- After the destructor has run: the entry is given back if its header is still the one stored.
unfoldable pub finish : Pool → (entry stored : ℕ) → Pool × Bool
unfolding get_id
finish p entry stored =
    if p.header entry == stored then (put p entry (bit_and stored id_mask), true) else (p, false)

-- `destructor` is the caller's function on the pool and the entry, or `none`.
unfoldable pub unlock_internal :
    Pool → ℕ → (try_final : Bool) → Option (Pool → ℕ → Pool) → Pool × Bool
unfolding get_entry unlock_next finish
unlock_internal p id try_final destructor =
    if id == id_invalid
    then (p, false)
    else elim (unlock_next id try_final (elim destructor [ none ↦ false | some _ ↦ true ])
        (p.header (get_entry p id))) [
          | none ↦ (p, false)
          | some (last, h) ↦
              let q = put p (get_entry p id) h in
              elim destructor [
                | none ↦ (q, last)
                | some run ↦
                    let done = finish (run q (get_entry p id)) (get_entry p id) h in
                    if last then done else (q, last)
              ]
        ]

unfoldable pub unlock : Pool → ℕ → Pool × Bool
unfolding unlock_internal
unlock p id = unlock_internal p id false none

unfoldable pub try_unlock_final : Pool → ℕ → Pool × Bool
unfolding unlock_internal
try_unlock_final p id = unlock_internal p id true none

unfoldable pub unlock_dest : Pool → ℕ → (Pool → ℕ → Pool) → Pool × Bool
unfolding unlock_internal
unlock_dest p id destructor = unlock_internal p id false (some destructor)

unfoldable pub try_unlock_final_dest : Pool → ℕ → (Pool → ℕ → Pool) → Pool × Bool
unfolding unlock_internal
try_unlock_final_dest p id destructor = unlock_internal p id true (some destructor)

-- The ID of the entry that a pointer of the pool stands for.
unfoldable pub get_id_of : Pool → ℕ → ℕ
unfolding get_id
get_id_of p entry = get_id (p.header entry)
