-- ===== src/God/Header.antt =====
-- The header word of prs/god.c: the macros at the top of the file, and the values that the
-- compare-and-exchange loops compute from a loaded header.
use prs.Base.{
  ℕ, ◌+◌, ◌-◌, ◌*◌, ◌/◌, ◌%◌, ◌^◌, ◌≡◌, arith, Bool, false, not, Option, none, some, bit_and,
  bit_or, ◌==◌, if◌then◌else◌, word, sub_word, ◌⊎◌, inl, inr,
}
use prs.Base.Bits.{bit_and-low, bit_and-field}
use prs.Base.Result.{Result, invalid_state, locked}

-- `prs_object_id_t` is 32 bits wide.
abbrev pub id_word : ℕ → ℕ
id_word n = n % 2 ^ 32

abbrev pub header_bits : ℕ
header_bits = 64

abbrev pub id_bits : ℕ
id_bits = 32

abbrev pub nonid_bits : ℕ
nonid_bits = header_bits - id_bits

abbrev pub header_id : ℕ
header_id = (2 ^ id_bits - 1) * 2 ^ nonid_bits

abbrev pub header_reserved : ℕ
header_reserved = 2 ^ 14

abbrev pub header_used : ℕ
header_used = 2 ^ 13

abbrev pub delete_mark : ℕ
delete_mark = 2 ^ 12

abbrev pub header_refcnt : ℕ
header_refcnt = 2 ^ 12 - 1

abbrev pub id_invalid : ℕ
id_invalid = 0

unfoldable pub test_flag : (header flag : ℕ) → ℕ
test_flag header flag = bit_and header flag

unfoldable pub get_id : ℕ → ℕ
get_id header = bit_and header header_id / 2 ^ nonid_bits

unfoldable pub set_id : ℕ → ℕ
set_id id = word (id * 2 ^ nonid_bits)

-- The two tests that `prs_god_alloc_and_lock` makes at index `i`.
unfoldable pub is_free : (header i : ℕ) → Bool
unfolding test_flag get_id
is_free header i =
    if not (test_flag header header_reserved == 0) then false else not (get_id header == i)

-- The header that it exchanges in, and the one that it stores behind the object.
unfoldable pub reserved_header : ℕ → ℕ
unfolding set_id
reserved_header i = bit_or (bit_or (set_id i) header_reserved) 1

unfoldable pub used_header : ℕ → ℕ
used_header new_header = bit_or new_header header_used

-- One round of the loop of `prs_god_lock_entry`: `none` where it returns null.
unfoldable pub lock_next : (id header : ℕ) → Option ℕ
unfolding test_flag get_id
lock_next id header =
    if not (get_id header == id)
    then none
    else (if test_flag header header_used == 0
        then none
        else (if not (test_flag header delete_mark == 0)
            then none
            else (if test_flag header header_refcnt == header_refcnt
                then none
                else some (word (header + 1)))))

-- `(header | PRS_GOD_HEADER_DELETE_MARK) & ~PRS_GOD_HEADER_REFCNT`
unfoldable pub marked : ℕ → ℕ
marked header = bit_and (bit_or header delete_mark) (2 ^ 64 - 1 - header_refcnt)

-- One round of the loop of `prs_god_unlock`, with run-time checks.
unfoldable pub unlock_next : (id header : ℕ) → Option ℕ
unfolding test_flag get_id
unlock_next id header =
    if not (get_id header == id)
    then none
    else (if test_flag header header_used == 0
        then none
        else (if test_flag header header_refcnt == 1
            then some (marked header)
            else (if test_flag header header_refcnt == 0 then none else some (sub_word header 1))))

-- One round of the loop of `prs_god_try_unlock_final`, with run-time checks.
unfoldable pub try_unlock_next : (id header : ℕ) → Result ⊎ ℕ
unfolding test_flag get_id
try_unlock_next id header =
    if not (get_id header == id)
    then inl invalid_state
    else (if test_flag header header_used == 0
        then inl invalid_state
        else (if test_flag header header_refcnt == 1
            then inr (marked header)
            else (if test_flag header header_refcnt == 0 then inl invalid_state else inl locked)))

-- What the masks read, as arithmetic.
pub get_id_lem : (h : ℕ) → get_id h ≡ h / 2 ^ 32 % 2 ^ 32
unfolding get_id
get_id_lem h = omega (arith, bit_and-field 32 32 h)

pub reserved_lem : (h : ℕ) → test_flag h header_reserved ≡ h / 2 ^ 14 % 2 * 2 ^ 14
unfolding test_flag
reserved_lem h = bit_and-field 14 1 h

pub used_lem : (h : ℕ) → test_flag h header_used ≡ h / 2 ^ 13 % 2 * 2 ^ 13
unfolding test_flag
used_lem h = bit_and-field 13 1 h

pub delete_mark_lem : (h : ℕ) → test_flag h delete_mark ≡ h / 2 ^ 12 % 2 * 2 ^ 12
unfolding test_flag
delete_mark_lem h = bit_and-field 12 1 h

pub refcnt_lem : (h : ℕ) → test_flag h header_refcnt ≡ h % 2 ^ 12
unfolding test_flag
refcnt_lem h = bit_and-low 12 h
