-- ===== src/Pd.antt =====
-- prs/lib/ds/pd.c and include/prs/pd.h: the pointer directory. An entry is a header word, whose high
-- 12 bits count references and whose low 52 bits are an ID, and the pointer that it stands for. The
-- operations run without interference, with run-time checks on and assertions off.
pub mod Count
pub mod Alloc
pub mod Refs
pub mod Capacity
mod Tests
use prs.Base.{
  ℕ, zero, suc, ◌+◌, ◌-◌, ◌*◌, ◌^◌, Bool, true, false, not, ◌&&◌, Option, none, some, bit_and,
  bit_or, ◌==◌, ltb, if◌then◌else◌, word, sub_word, update,
}
use prs.Base.Scan.{scan}
use prs.Base.Result.{Result, ok, out_of_memory}

abbrev pub refcnt_shift : ℕ
refcnt_shift = 52

abbrev pub refcnt_bits : ℕ
refcnt_bits = 12

abbrev pub refcnt_inc : ℕ
refcnt_inc = 2 ^ refcnt_shift

abbrev pub refcnt_mask : ℕ
refcnt_mask = (2 ^ refcnt_bits - 1) * 2 ^ refcnt_shift

abbrev pub id_mask : ℕ
id_mask = refcnt_inc - 1

abbrev pub id_invalid : ℕ
id_invalid = 2 ^ 64 - 1

unfoldable pub get_id : ℕ → ℕ
get_id header = bit_and header id_mask

unfoldable pub test_refcnt : ℕ → ℕ
test_refcnt header = bit_and header refcnt_mask

-- `header` and `ptr` are the array `entries`.
pub record Pd : Type 0 where
  pub area : Bool
  pub header : ℕ → ℕ
  pub ptr : ℕ → ℕ
  pub max_entries : ℕ
  pub max_entries_mask : ℕ
  pub write_index : ℕ

-- The area is what the caller's memory holds.
pub record CreateParams : Type 0 where
  pub max_entries : ℕ
  pub area : Option ((ℕ → ℕ) × (ℕ → ℕ))

unfoldable pub get_entry : Pd → ℕ → ℕ
get_entry pd id = bit_and id pd.max_entries_mask

-- `sizeof(struct prs_pd)` is 40, `sizeof(struct prs_pd_entry)` is 16.
unfoldable pub struct_size : CreateParams → ℕ
struct_size params = word (40 + 16 * params.max_entries)

-- The part of `prs_pd_create` behind the allocations.
unfoldable pub init : CreateParams → Bool → (header ptr : ℕ → ℕ) → Pd
init params area header ptr = record {
  area = area;
  header = header;
  ptr = ptr;
  max_entries = params.max_entries;
  max_entries_mask = params.max_entries - 1;
  write_index = 1;
}

-- With the directory comes the number of blocks that are allocated and not freed on return.
unfoldable pub create : CreateParams → (pd_memory entry_memory : Bool) → Option Pd × ℕ
unfolding init
create params pd_memory entry_memory = elim params.area [
  | some (header, ptr) ↦ (some (init params true header ptr), 0)
  | none ↦
      if pd_memory
      then (if entry_memory then (some (init params false (λ _. 0) (λ _. 0)), 2) else (none, 0))
      else (none, 0)
]

-- The number of blocks freed.
unfoldable pub destroy : Pd → ℕ
destroy pd = if pd.area then 0 else 2

-- The tests that `prs_pd_alloc_and_lock` makes at index `i`.
unfoldable pub is_allocatable : ℕ → ℕ → Bool
is_allocatable header i = (test_refcnt header == 0) && not (get_id header == i)

unfoldable pub alloc_header : ℕ → ℕ
alloc_header i = bit_or refcnt_inc (bit_and i id_mask)

-- Whether the loop of `prs_pd_alloc_and_lock` stops at index `i`.
unfoldable pub can_take : Pd → ℕ → Bool
can_take pd i = is_allocatable (pd.header (get_entry pd i)) i

-- What it does with the index that the loop has found: the directory, the result and `*id`.
unfoldable pub take_index : Pd → ℕ → Option ℕ → Pd × Result × ℕ
take_index pd ptr none = (pd, out_of_memory, id_invalid)
take_index pd ptr (some i) = (
  record pd {
    header = update pd.header (get_entry pd i) (alloc_header i);
    ptr = update pd.ptr (get_entry pd i) ptr;
    write_index = word (i + 1);
  },
  ok,
  i,
)

unfoldable pub alloc_and_lock : Pd → ℕ → Pd × Result × ℕ
unfolding take_index
alloc_and_lock pd ptr =
    take_index pd ptr
      (scan pd.max_entries (can_take pd) pd.write_index (word (pd.write_index + pd.max_entries)))

-- One round of the loop of `prs_pd_lock`.
unfoldable pub lock_next : ℕ → ℕ → Option ℕ
lock_next id header =
    if not (get_id header == id)
    then none
    else (if test_refcnt header == 0
        then none
        else (if test_refcnt header == refcnt_mask
            then none
            else some (word (header + refcnt_inc))))

-- One round of the loop of `prs_pd_unlock`: the header to exchange in, and `last`.
unfoldable pub unlock_next : ℕ → ℕ → Option (ℕ × Bool)
unlock_next id header =
    if not (get_id header == id)
    then none
    else (if test_refcnt header == 0
        then none
        else some (sub_word header refcnt_inc, test_refcnt header == refcnt_inc))

abbrev pub put : Pd → ℕ → ℕ → Pd
put pd entry h = record pd { header = update pd.header entry h }

-- The pointer returned is null (`none`) or the entry's.
unfoldable pub lock_with : Pd → ℕ → Option ℕ → Pd × Option ℕ
lock_with pd entry none = (pd, none)
lock_with pd entry (some h) = (put pd entry h, some (pd.ptr entry))

unfoldable pub lock : Pd → ℕ → Pd × Option ℕ
unfolding lock_with
lock pd id =
    if id == id_invalid
    then (pd, none)
    else lock_with pd (get_entry pd id) (lock_next id (pd.header (get_entry pd id)))

unfoldable pub unlock_with : Pd → ℕ → Option (ℕ × Bool) → Pd × Bool
unlock_with pd entry none = (pd, false)
unlock_with pd entry (some (h, last)) = (put pd entry h, last)

unfoldable pub unlock : Pd → ℕ → Pd × Bool
unfolding unlock_with
unlock pd id =
    if id == id_invalid
    then (pd, false)
    else unlock_with pd (get_entry pd id) (unlock_next id (pd.header (get_entry pd id)))
