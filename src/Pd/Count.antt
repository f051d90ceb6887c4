-- ===== src/Pd/Count.antt =====
-- The header of prs/lib/ds/pd.c as a reference count and an ID, and its transitions.
use prs.Base.{
  ℕ, ◌+◌, ◌-◌, ◌*◌, ◌/◌, ◌%◌, ◌^◌, ◌<◌, ◌≡◌, not, ◌&&◌, none, some, arith, ◌==◌, if◌then◌else◌,
}
use prs.Base.Bits.{bit_and-low, bit_and-field, bit_or-add}
use prs.Pd.{get_id, test_refcnt, is_allocatable, alloc_header, lock_next, unlock_next}

-- The header with `r` references to ID `i`.
abbrev pub count : ℕ → ℕ → ℕ
count r i = r * 2 ^ 52 + i

abbrev pub max_refcnt : ℕ
max_refcnt = 2 ^ 12 - 1

get_id_lem : (h : ℕ) → get_id h ≡ h % 2 ^ 52
unfolding get_id
get_id_lem h = bit_and-low 52 h

test_refcnt_lem : (h : ℕ) → test_refcnt h ≡ h / 2 ^ 52 % 2 ^ 12 * 2 ^ 52
unfolding test_refcnt
test_refcnt_lem h = bit_and-field 52 12 h

pub alloc_header-count : (i : ℕ) → alloc_header i ≡ count 1 (i % 2 ^ 52)
unfolding alloc_header
alloc_header-count i = ground (arith, bit_and-low 52 i, bit_or-add 52 1 (i % 2 ^ 52))

module _ (r i : ℕ) (refcnt_fits : r < 2 ^ 12) (id_fits : i < 2 ^ 52) where
  pub is_allocatable-count : (j : ℕ) → is_allocatable (count r i) j ≡ ((r == 0) && not (i == j))
  unfolding is_allocatable
  is_allocatable-count j = ground (arith, get_id_lem (count r i), test_refcnt_lem (count r i))

  pub lock_next-count :
      (id : ℕ)
      → lock_next id (count r i) ≡ (
          if (i == id) && not (r == 0) && not (r == max_refcnt)
          then some (count (r + 1) i)
          else none)
  unfolding lock_next
  lock_next-count id = ground (arith, get_id_lem (count r i), test_refcnt_lem (count r i))

  pub unlock_next-count :
      (id : ℕ)
      → unlock_next id (count r i)
        ≡ (if (i == id) && not (r == 0) then some (count (r - 1) i, r == 1) else none)
  unfolding unlock_next
  unlock_next-count id = ground (arith, get_id_lem (count r i), test_refcnt_lem (count r i))
