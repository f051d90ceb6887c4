-- ===== src/God/Fields.antt =====
-- A header of prs/god.c as its fields, and each header transition on the fields.
use mathlib.Core.Option
use prs.Base.{
  bit_or, bit_and, ℕ, ◌+◌, ◌-◌, ◌*◌, ◌%◌, ◌^◌, ◌<◌, zero, suc, ◌≡◌, refl, ◌∙◌, Bool, true, false,
  not, ◌&&◌, Option, none, some, arith, ◌==◌, if◌then◌else◌, inl, inr, ◌⊎◌, ap,
}
use prs.Base.Bits.{bit_and-field, bit_or-add, bit_or-split, bit_or-zero}
use prs.Base.Result.{Result, invalid_state, locked}
use prs.God.Header.{
  header_id, header_reserved, header_used, header_refcnt, delete_mark, get_id, test_flag, is_free,
  reserved_header, used_header, lock_next, unlock_next, try_unlock_next, marked, set_id, get_id_lem,
  reserved_lem, used_lem, delete_mark_lem, refcnt_lem,
}

pub record Fields : Type 0 where
  pub id : ℕ
  pub reserved : Bool
  pub used : Bool
  pub mark : Bool
  pub refcnt : ℕ

abbrev pub fields : ℕ → (reserved used mark : Bool) → ℕ → Fields
fields i r u d c = record { id = i; reserved = r; used = u; mark = d; refcnt = c }

abbrev pub bit : Bool → ℕ
bit b = if b then 1 else 0

abbrev pub encode : Fields → ℕ
encode f =
    f.id * 2 ^ 32 + bit f.reserved * 2 ^ 14 + bit f.used * 2 ^ 13 + bit f.mark * 2 ^ 12 + f.refcnt

-- The fields fit their bits.
pub record Fits (f : Fields) : Type 0 where
  pub id_fits : f.id < 2 ^ 32
  pub refcnt_fits : f.refcnt < 2 ^ 12

-- The entry of a live object with `c` references: it can be locked.
abbrev pub live : ℕ → ℕ → Fields
live i c = fields i true true false c

-- One whose last reference is gone, while `free` runs.
abbrev pub dying : ℕ → Fields
dying i = fields i true true true 0

abbrev pub max_refcnt : ℕ
max_refcnt = 2 ^ 12 - 1

-- What the header transitions mean.
abbrev pub lock_fields : ℕ → Fields → Option Fields
lock_fields id f =
    if (f.id == id) && f.used && not f.mark && not (f.refcnt == max_refcnt)
    then some (record f { refcnt = f.refcnt + 1 })
    else none

abbrev pub unlock_fields : ℕ → Fields → Option Fields
unlock_fields id f =
    if (f.id == id) && f.used && not (f.refcnt == 0)
    then some (
        if f.refcnt == 1
        then record f { mark = true; refcnt = 0 }
        else record f { refcnt = f.refcnt - 1 })
    else none

abbrev pub try_unlock_fields : ℕ → Fields → Result ⊎ Fields
try_unlock_fields id f =
    if (f.id == id) && f.used && not (f.refcnt == 0)
    then (if f.refcnt == 1 then inr (record f { mark = true; refcnt = 0 }) else inl locked)
    else inl invalid_state

bit-fits : (b : Bool) → bit b < 2
bit-fits true = omega arith
bit-fits false = omega arith

-- What each mask reads of a word that is cut into the fields.
module _ (i r u d c : ℕ) (i_fits : i < 2 ^ 32) (r_fits : r < 2) (u_fits : u < 2) (d_fits : d < 2)
    (c_fits : c < 2 ^ 12) where
  abbrev word_of : ℕ
  word_of = i * 2 ^ 32 + r * 2 ^ 14 + u * 2 ^ 13 + d * 2 ^ 12 + c

  id-word_of : get_id word_of ≡ i
  id-word_of = omega (arith, get_id_lem word_of)

  reserved-word_of : test_flag word_of header_reserved ≡ r * 2 ^ 14
  reserved-word_of = omega (arith, reserved_lem word_of)

  used-word_of : test_flag word_of header_used ≡ u * 2 ^ 13
  used-word_of = omega (arith, used_lem word_of)

  mark-word_of : test_flag word_of delete_mark ≡ d * 2 ^ 12
  mark-word_of = omega (arith, delete_mark_lem word_of)

  refcnt-word_of : test_flag word_of header_refcnt ≡ c
  refcnt-word_of = omega (arith, refcnt_lem word_of)

  clear-word_of : bit_and word_of header_id ≡ i * 2 ^ 32
  clear-word_of = omega (arith, bit_and-field 32 32 word_of)

or_one : (d : ℕ) → d < 2 → bit_or d 1 ≡ 1
or_one zero p = refl
or_one (suc zero) p = refl
or_one (suc (suc d)) p = absurd (omega arith)

-- `(header | PRS_GOD_HEADER_DELETE_MARK) & ~PRS_GOD_HEADER_REFCNT` sets the mark and clears the count.
marked_lem :
    (a d c : ℕ)
    → a < 2 ^ 51
    → d < 2
    → c < 2 ^ 12
    → marked (a * 2 ^ 13 + d * 2 ^ 12 + c) ≡ a * 2 ^ 13 + 2 ^ 12
unfolding marked
marked_lem a d c a_fits d_fits c_fits =
    let cut : a * 2 ^ 13 + d * 2 ^ 12 + c ≡ (a * 2 + d) * 2 ^ 12 + c = omega arith in
    rw cut (
      omega (
        arith,
        bit_or-split 12 (a * 2 + d) 1 c 0 c_fits (omega arith),
        bit_or-zero c,
        bit_or-split 1 a 0 d 1 d_fits (omega arith),
        bit_or-zero a,
        or_one d d_fits,
        bit_and-field 12 52 (bit_or ((a * 2 + d) * 2 ^ 12 + c) delete_mark),
      ))

module _ (f : Fields) (fits : Fits f) where
  open fits use {id_fits, refcnt_fits}

  get_id-fields : get_id (encode f) ≡ f.id
  get_id-fields =
      id-word_of f.id (bit f.reserved) (bit f.used) (bit f.mark) f.refcnt id_fits
        (bit-fits f.reserved) (bit-fits f.used) (bit-fits f.mark) refcnt_fits

  reserved-fields : test_flag (encode f) header_reserved ≡ bit f.reserved * 2 ^ 14
  reserved-fields =
      reserved-word_of f.id (bit f.reserved) (bit f.used) (bit f.mark) f.refcnt id_fits
        (bit-fits f.reserved) (bit-fits f.used) (bit-fits f.mark) refcnt_fits

  used-fields : test_flag (encode f) header_used ≡ bit f.used * 2 ^ 13
  used-fields =
      used-word_of f.id (bit f.reserved) (bit f.used) (bit f.mark) f.refcnt id_fits
        (bit-fits f.reserved) (bit-fits f.used) (bit-fits f.mark) refcnt_fits

  mark-fields : test_flag (encode f) delete_mark ≡ bit f.mark * 2 ^ 12
  mark-fields =
      mark-word_of f.id (bit f.reserved) (bit f.used) (bit f.mark) f.refcnt id_fits
        (bit-fits f.reserved) (bit-fits f.used) (bit-fits f.mark) refcnt_fits

  pub refcnt-fields : test_flag (encode f) header_refcnt ≡ f.refcnt
  refcnt-fields =
      refcnt-word_of f.id (bit f.reserved) (bit f.used) (bit f.mark) f.refcnt id_fits
        (bit-fits f.reserved) (bit-fits f.used) (bit-fits f.mark) refcnt_fits

  pub clear-fields : bit_and (encode f) header_id ≡ encode (fields f.id false false false 0)
  clear-fields =
      let w =
        clear-word_of f.id (bit f.reserved) (bit f.used) (bit f.mark) f.refcnt id_fits
          (bit-fits f.reserved) (bit-fits f.used) (bit-fits f.mark) refcnt_fits in
      omega (arith, w)

  marked-fields : marked (encode f) ≡ encode (record f { mark = true; refcnt = 0 })
  marked-fields =
      let a = f.id * 2 ^ 19 + bit f.reserved * 2 + bit f.used in
      let cut : encode f ≡ a * 2 ^ 13 + bit f.mark * 2 ^ 12 + f.refcnt = omega arith in
      let done =
        marked_lem a (bit f.mark) f.refcnt (omega (arith, bit-fits f.reserved, bit-fits f.used))
          (bit-fits f.mark) refcnt_fits in
      ap marked cut ∙ done ∙ omega arith

  -- A sum stays inside the word.
  small : encode f + 1 < 2 ^ 64
  small = omega (arith, bit-fits f.reserved, bit-fits f.used, bit-fits f.mark)

  pub lock_next-fields : (id : ℕ) → lock_next id (encode f) ≡ Option.map encode (lock_fields id f)
  unfolding lock_next
  lock_next-fields id =
      ground (arith, small, get_id-fields, refcnt-fields, used-fields, mark-fields)

  pub unlock_next-fields :
      (id : ℕ) → unlock_next id (encode f) ≡ Option.map encode (unlock_fields id f)
  unfolding unlock_next
  unlock_next-fields id =
      ground (arith, small, get_id-fields, refcnt-fields, used-fields, marked-fields)

  -- An outcome of `prs_god_try_unlock_final` on fields, as one on words.
  abbrev pub encode_outcome : Result ⊎ Fields → Result ⊎ ℕ
  encode_outcome (inl r) = inl r
  encode_outcome (inr g) = inr (encode g)

  pub try_unlock_next-fields :
      (id : ℕ) → try_unlock_next id (encode f) ≡ encode_outcome (try_unlock_fields id f)
  unfolding try_unlock_next
  try_unlock_next-fields id =
      ground (arith, small, get_id-fields, refcnt-fields, used-fields, marked-fields)

  pub is_free-fields : (i : ℕ) → is_free (encode f) i ≡ (not f.reserved && not (f.id == i))
  unfolding is_free
  is_free-fields i = ground (arith, get_id-fields, reserved-fields)

-- The headers of a fresh allocation.
pub reserved_header-fields :
    (i : ℕ) → i < 2 ^ 32 → reserved_header i ≡ encode (fields i true false false 1)
unfolding reserved_header set_id
reserved_header-fields i p =
    let start : i * 2 ^ 32 % 2 ^ 64 ≡ i * 2 ^ 32 = omega arith in
    let cut : i * 2 ^ 32 + 2 ^ 14 ≡ (i * 2 ^ 18 + 1) * 2 ^ 14 = omega arith in
    rw (start, bit_or-add 32 i (2 ^ 14) (omega arith), cut)
      (omega (arith, bit_or-add 14 (i * 2 ^ 18 + 1) 1 (omega arith)))

pub used_header-fields : (i : ℕ) → i < 2 ^ 32 → used_header (reserved_header i) ≡ encode (live i 1)
unfolding used_header
used_header-fields i p =
    let cut : encode (fields i true false false 1) ≡ (i * 2 ^ 19 + 2) * 2 ^ 13 + 1 = omega arith in
    let low : i * 2 ^ 19 + 2 ≡ (i * 2 ^ 18 + 1) * 2 ^ 1 = omega arith in
    ap used_header (reserved_header-fields i p ∙ cut)
    ∙ bit_or-split 13 (i * 2 ^ 19 + 2) 1 1 0 (omega arith) (omega arith)
    ∙ rw low (omega (arith, bit_or-add 1 (i * 2 ^ 18 + 1) 1 (omega arith)))
