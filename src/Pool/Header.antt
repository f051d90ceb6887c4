-- ===== src/Pool/Header.antt =====
-- The header word of prs/lib/ds/pool.c: the macros at the top of the file, the values that the
-- compare-and-exchange loops compute from a loaded header, and the fields of a header.
use prs.Base.{
  ℕ, ◌+◌, ◌-◌, ◌*◌, ◌/◌, ◌%◌, ◌^◌, ◌≡◌, Bool, not, ◌&&◌, Option, none, some, bit_and, bit_or, ◌==◌,
  if◌then◌else◌, word, sub_word,
}
use prs.Base.Bits.{bit_and-low, bit_and-field}

abbrev pub refcnt_shift : ℕ
refcnt_shift = 52

abbrev pub refcnt_bits : ℕ
refcnt_bits = 11

abbrev pub refcnt_inc : ℕ
refcnt_inc = 2 ^ refcnt_shift

abbrev pub refcnt_mask : ℕ
refcnt_mask = (2 ^ refcnt_bits - 1) * 2 ^ refcnt_shift

abbrev pub alloc_shift : ℕ
alloc_shift = refcnt_shift + refcnt_bits

abbrev pub alloc_mask : ℕ
alloc_mask = 2 ^ alloc_shift

abbrev pub id_mask : ℕ
id_mask = refcnt_inc - 1

abbrev pub id_invalid : ℕ
id_invalid = 2 ^ 64 - 1

unfoldable pub get_id : ℕ → ℕ
get_id header = bit_and header id_mask

unfoldable pub test_refcnt : ℕ → ℕ
test_refcnt header = bit_and header refcnt_mask

unfoldable pub get_refcnt : ℕ → ℕ
unfolding test_refcnt
get_refcnt header = test_refcnt header / 2 ^ refcnt_shift

unfoldable pub test_alloc : ℕ → ℕ
test_alloc header = bit_and header alloc_mask

-- The tests that `prs_pool_alloc` makes at index `i`.
unfoldable pub is_allocatable : ℕ → ℕ → Bool
is_allocatable header i = (test_alloc header == 0) && not (get_id header == i)

-- The header that `prs_pool_alloc` exchanges in.
unfoldable pub alloc_header : ℕ → ℕ
alloc_header i = bit_or alloc_mask (bit_and i id_mask)

-- `prs_pool_free` with run-time checks: `none` where a check returns early.
unfoldable pub free_next : ℕ → ℕ → Option ℕ
free_next id header =
    if test_alloc header == 0
    then none
    else (if not (test_refcnt header == 0) then none else some id)

-- `prs_pool_lock_first` with run-time checks.
unfoldable pub lock_first_next : ℕ → ℕ → Option ℕ
lock_first_next id header =
    if not (get_id header == id)
    then none
    else (if test_alloc header == 0
        then none
        else (if not (test_refcnt header == 0) then none else some (bit_or refcnt_inc header)))

-- One round of the loop of `prs_pool_lock`.
unfoldable pub lock_next : ℕ → ℕ → Option ℕ
lock_next id header =
    if not (get_id header == id)
    then none
    else (if test_alloc header == 0
        then none
        else (if test_refcnt header == 0
            then none
            else (if test_refcnt header == refcnt_mask
                then none
                else some (word (header + refcnt_inc)))))

-- `new_header &= ~PRS_POOL_ALLOC_MASK` in the last round of the loop of `prs_pool_unlock_internal`.
unfoldable pub drop_alloc : ℕ → ℕ
drop_alloc header = bit_and header (2 ^ 64 - 1 - alloc_mask)

-- One round of that loop: whether the reference was the last one, and the header to exchange in.
unfoldable pub unlock_next : ℕ → (try_final destructor : Bool) → ℕ → Option (Bool × ℕ)
unfolding drop_alloc
unlock_next id try_final destructor header =
    let last = test_refcnt header == refcnt_inc in
    let new_header = sub_word header refcnt_inc in
    if not (get_id header == id)
    then none
    else (if test_alloc header == 0
        then none
        else (if test_refcnt header == 0
            then none
            else (if try_final && not last
                then none
                else some
                    (last, if last && not destructor then drop_alloc new_header else new_header))))

-- What the masks read, as arithmetic.
pub get_id_lem : (h : ℕ) → get_id h ≡ h % 2 ^ 52
unfolding get_id
get_id_lem h = bit_and-low 52 h

pub test_refcnt_lem : (h : ℕ) → test_refcnt h ≡ h / 2 ^ 52 % 2 ^ 11 * 2 ^ 52
unfolding test_refcnt
test_refcnt_lem h = bit_and-field 52 11 h

pub test_alloc_lem : (h : ℕ) → test_alloc h ≡ h / 2 ^ 63 % 2 * 2 ^ 63
unfolding test_alloc
test_alloc_lem h = bit_and-field 63 1 h

pub drop_alloc_lem : (h : ℕ) → drop_alloc h ≡ h % 2 ^ 63
unfolding drop_alloc
drop_alloc_lem h = bit_and-low 63 h
