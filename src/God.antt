-- ===== src/God.antt =====
-- prs/god.c, the global object directory: an array of entries, each a header word, an object and its
-- operations; a pointer to an entry is its index. Each function runs without interference, so a
-- compare-and-exchange succeeds at its first attempt: `God.Protocol` interleaves them. Run-time checks
-- are on (include/prs/config.h), assertions off.
pub mod Header
pub mod Fields
pub mod Laws
pub mod Undo
pub mod Alloc
pub mod Count
pub mod Protocol
pub mod Steps
pub mod Drain
mod Tests
use prs.Base.{
  ℕ, ◌+◌, ◌-◌, Bool, Option, none, some, bit_and, bit_or, ◌==◌, if◌then◌else◌, update, ◌⊎◌, inl,
  inr,
}
use prs.Base.Result.{Result, ok, not_found, out_of_memory}
use prs.Base.Scan.{scan}
use Header.{
  id_word, header_id, header_reserved, header_used, header_refcnt, id_invalid, test_flag, is_free,
  reserved_header, used_header, lock_next, unlock_next, try_unlock_next,
}

-- `header`, `object` and `ops` are the array `entries`.
pub record God : Type 0 where
  pub header : ℕ → ℕ
  pub object : ℕ → ℕ
  pub ops : ℕ → ℕ
  pub max_entries : ℕ
  pub max_entries_mask : ℕ
  pub write_index : ℕ

-- The functions `free` and `destroy` that the pointer to a `struct prs_object_ops` stands for, on the
-- object and the directory; `none` where the field is null.
pub record Ops : Type 0 where
  pub destroy_of : ℕ → Option (ℕ → God → God)
  pub free_of : ℕ → Option (ℕ → God → God)

unfoldable pub get_entry : God → ℕ → ℕ
get_entry g id = bit_and id g.max_entries_mask

-- `god_memory` and `entry_memory` say whether the two allocations succeed.
unfoldable pub create : (max_entries : ℕ) (god_memory entry_memory : Bool) → Result ⊎ God
create max_entries god_memory entry_memory =
    if god_memory
    then (if entry_memory
        then inr (record {
          header = update (λ _. 0) 0 (bit_or header_reserved header_used);
          object = λ _. 0;
          ops = λ _. 0;
          max_entries = max_entries;
          max_entries_mask = max_entries - 1;
          write_index = 1;
        })
        else inl out_of_memory)
    else inl out_of_memory

-- Whether the loop of `prs_god_alloc_and_lock` stops at index `i`.
unfoldable pub can_take : God → ℕ → Bool
unfolding get_entry is_free
can_take g i = is_free (g.header (get_entry g i)) i

-- The store that makes the reserved entry visible.
unfoldable pub publish : God → (i object ops : ℕ) → God
unfolding get_entry reserved_header used_header
publish g i object ops = record g {
  object = update g.object (get_entry g i) object;
  ops = update g.ops (get_entry g i) ops;
  header = update g.header (get_entry g i) (used_header (reserved_header i));
}

-- What it does with the index that the loop has found.
unfoldable pub take_index : God → (object ops : ℕ) → Option ℕ → God × ℕ
unfolding get_entry reserved_header publish
take_index g object ops none = (g, id_invalid)
take_index g object ops (some i) = (
  publish
      (record g {
        header = update g.header (get_entry g i) (reserved_header i);
        write_index = id_word (i + 1);
      })
      i object ops,
  i,
)

unfoldable pub alloc_and_lock : God → (object ops : ℕ) → God × ℕ
unfolding can_take take_index
alloc_and_lock g object ops =
    take_index g object ops
      (scan g.max_entries (can_take g) g.write_index (id_word (g.write_index + g.max_entries)))

-- Stores what a transition yields in the header of an entry.
abbrev pub put : God → (entry header : ℕ) → God
put g entry h = record g { header = update g.header entry h }

-- `if (entry->ops->free) entry->ops->free(entry->object)`, and the same for `destroy`.
unfoldable pub call : Option (ℕ → God → God) → (object : ℕ) → God → God
call none object g = g
call (some run) object g = run object g

-- The exchange stores the ID of the header that it finds, at its first or its second attempt.
unfoldable pub free : Ops → God → ℕ → God
unfolding get_entry call
free o g id =
    let entry = get_entry g id in
    let freed = call (o.free_of (g.ops entry)) (g.object entry) g in
    if id == id_invalid then g else put freed entry (bit_and (freed.header entry) header_id)

unfoldable pub find : God → ℕ → ℕ
unfolding get_entry
find g id = if id == id_invalid then 0 else g.object (get_entry g id)

-- The entry, or null.
unfoldable pub lock_entry : God → ℕ → God × Option ℕ
unfolding get_entry lock_next
lock_entry g id =
    if id == id_invalid then (g, none) else elim (lock_next id (g.header (get_entry g id))) [
      | none ↦ (g, none)
      | some h ↦ (put g (get_entry g id) h, some (get_entry g id))
    ]

unfoldable pub object_of : God × Option ℕ → God × ℕ
object_of (g, none) = (g, 0)
object_of (g, some entry) = (g, g.object entry)

unfoldable pub lock : God → ℕ → God × ℕ
unfolding lock_entry object_of
lock g id = object_of (lock_entry g id)

-- Behind the loop of `prs_god_unlock`, where the header `h` has been stored.
unfoldable pub release : Ops → God → ℕ → ℕ → God
unfolding get_entry test_flag free
release o g id h =
    let stored = put g (get_entry g id) h in
    let freed = free o stored id in if test_flag h header_refcnt == 0 then freed else stored

unfoldable pub unlock : Ops → God → ℕ → God
unfolding get_entry unlock_next release
unlock o g id =
    if id == id_invalid
    then g
    else elim (unlock_next id (g.header (get_entry g id))) [ none ↦ g | some h ↦ release o g id h ]

unfoldable pub try_unlock_final : Ops → God → ℕ → God × Result
unfolding get_entry try_unlock_next free
try_unlock_final o g id =
    if id == id_invalid
    then (g, not_found)
    else elim (try_unlock_next id (g.header (get_entry g id))) [
      | inl result ↦ (g, result)
      | inr h ↦ (free o (put g (get_entry g id) h) id, ok)
    ]

-- The destructor runs between a lock and an unlock.
unfoldable pub destroy_locked : Ops → ℕ → God × Option ℕ → God × Result
unfolding call unlock
destroy_locked o id (g, none) = (g, not_found)
destroy_locked o id (g, some entry) =
    (unlock o (call (o.destroy_of (g.ops entry)) (g.object entry) g) id, ok)

unfoldable pub object_destroy : Ops → God → ℕ → God × Result
unfolding lock_entry destroy_locked
object_destroy o g id = destroy_locked o id (lock_entry g id)
