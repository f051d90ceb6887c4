-- ===== src/Pool/Fields.antt =====
-- A header of prs/lib/ds/pool.c as its three fields, and each header transition on the fields.
use mathlib.Core.Option
use prs.Base.{
  bit_or, ℕ, ◌+◌, ◌-◌, ◌*◌, ◌%◌, ◌^◌, ◌<◌, ◌≡◌, Bool, true, not, ◌&&◌, Option, none, some, arith,
  ◌==◌, if◌then◌else◌, sub_word, Bool-cases, inl, inr,
}
use prs.Base.Bits.{bit_and-low, bit_or-add, bit_or-split}
use prs.Pool.Header.{
  refcnt_inc, get_id, test_refcnt, test_alloc, is_allocatable, alloc_header, lock_first_next,
  lock_next, unlock_next, get_id_lem, test_refcnt_lem, test_alloc_lem, drop_alloc_lem,
}

pub record Fields : Type 0 where
  pub alloc : Bool
  pub refcnt : ℕ
  pub id : ℕ

abbrev pub fields : Bool → ℕ → ℕ → Fields
fields a r i = record { alloc = a; refcnt = r; id = i }

abbrev pub bit : Bool → ℕ
bit b = if b then 1 else 0

abbrev pub encode : Fields → ℕ
encode f = bit f.alloc * 2 ^ 63 + f.refcnt * 2 ^ 52 + f.id

-- The fields fit their bits.
pub record Fits (f : Fields) : Type 0 where
  pub refcnt_fits : f.refcnt < 2 ^ 11
  pub id_fits : f.id < 2 ^ 52

-- The largest reference count: one more would carry into the allocation bit.
abbrev pub max_refcnt : ℕ
max_refcnt = 2 ^ 11 - 1

-- What the header transitions mean.
abbrev pub Transition : Type 0
Transition = Fields → Option Fields

abbrev pub lock_fields : ℕ → Transition
lock_fields id f =
    if (f.id == id) && f.alloc && not (f.refcnt == 0) && not (f.refcnt == max_refcnt)
    then some (record f { refcnt = f.refcnt + 1 })
    else none

abbrev pub lock_first_fields : ℕ → Transition
lock_first_fields id f =
    if (f.id == id) && f.alloc && (f.refcnt == 0) then some (record f { refcnt = 1 }) else none

abbrev pub unlock_fields : ℕ → (try_final destructor : Bool) → Fields → Option (Bool × Fields)
unlock_fields id try_final destructor f =
    let last = f.refcnt == 1 in
    if (f.id == id) && f.alloc && not (f.refcnt == 0) && not (try_final && not last)
    then some
        (last, record f { refcnt = f.refcnt - 1; alloc = f.alloc && not (last && not destructor) })
    else none

-- `PRS_POOL_REFCNT_INC | header` sets the count to one where it is zero.
or_inc :
    (f : Fields)
    → f.alloc ≡ true
    → f.refcnt ≡ 0
    → f.id < 2 ^ 52
    → bit_or refcnt_inc (encode f) ≡ encode (record f { refcnt = 1 })
or_inc f a r p = rw (a, r) (ground (arith, bit_or-split 52 1 2048 0 f.id, bit_or-add 52 0 f.id))

module _ (f : Fields) (fits : Fits f) where
  open fits use {refcnt_fits, id_fits}

  pub get_id-encode : get_id (encode f) ≡ f.id
  get_id-encode = elim (Bool-cases f.alloc) [
    | inl e ↦ rw e (omega (arith, get_id_lem (1 * 2 ^ 63 + f.refcnt * 2 ^ 52 + f.id)))
    | inr e ↦ rw e (omega (arith, get_id_lem (0 * 2 ^ 63 + f.refcnt * 2 ^ 52 + f.id)))
  ]

  pub test_refcnt-encode : test_refcnt (encode f) ≡ f.refcnt * 2 ^ 52
  test_refcnt-encode = elim (Bool-cases f.alloc) [
    | inl e ↦ rw e (omega (arith, test_refcnt_lem (1 * 2 ^ 63 + f.refcnt * 2 ^ 52 + f.id)))
    | inr e ↦ rw e (omega (arith, test_refcnt_lem (0 * 2 ^ 63 + f.refcnt * 2 ^ 52 + f.id)))
  ]

  pub test_alloc-encode : test_alloc (encode f) ≡ bit f.alloc * 2 ^ 63
  test_alloc-encode = elim (Bool-cases f.alloc) [
    | inl e ↦ rw e (omega (arith, test_alloc_lem (1 * 2 ^ 63 + f.refcnt * 2 ^ 52 + f.id)))
    | inr e ↦ rw e (omega (arith, test_alloc_lem (0 * 2 ^ 63 + f.refcnt * 2 ^ 52 + f.id)))
  ]

  pub lock_next-fields : (id : ℕ) → lock_next id (encode f) ≡ Option.map encode (lock_fields id f)
  unfolding lock_next
  lock_next-fields id = ground (arith, get_id-encode, test_refcnt-encode, test_alloc-encode)

  pub lock_first_next-fields :
      (id : ℕ) → lock_first_next id (encode f) ≡ Option.map encode (lock_first_fields id f)
  unfolding lock_first_next
  lock_first_next-fields id =
      ground (arith, get_id-encode, test_refcnt-encode, test_alloc-encode, or_inc f)

  pub unlock_next-fields :
      (id : ℕ) (t d : Bool)
      → unlock_next id t d (encode f) ≡ Option.map (λ r. (r.0, encode r.1)) (unlock_fields id t d f)
  unfolding unlock_next
  unlock_next-fields id t d = ground (
    arith,
    get_id-encode,
    test_refcnt-encode,
    test_alloc-encode,
    drop_alloc_lem (sub_word (encode f) refcnt_inc),
  )

  pub is_allocatable-fields : (i : ℕ) → is_allocatable (encode f) i ≡ not f.alloc && not (f.id == i)
  unfolding is_allocatable
  is_allocatable-fields i = ground (arith, get_id-encode, test_alloc-encode)

-- The header of a fresh allocation.
pub alloc_header-fields : (i : ℕ) → alloc_header i ≡ encode (fields true 0 (i % 2 ^ 52))
unfolding alloc_header
alloc_header-fields i = ground (arith, bit_and-low 52 i, bit_or-add 63 1 (i % 2 ^ 52))
