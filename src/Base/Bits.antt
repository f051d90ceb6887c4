-- ===== src/Base/Bits.antt =====
-- `&` and `|` on words, split at a bit position, and what a mask leaves.
use Prim.Native.Nat.{
  ℕ, zero, suc, ◌+◌, ◌-◌, ◌*◌, ◌/◌, ◌%◌, ◌^◌, ◌≤◌, ◌<◌, min, max, bit_and, bit_or, digits,
  bit_and-bitwise, bit_or-bitwise,
}
use mathlib.Core.Path.{◌≡◌, refl, ap, sym, ◌∙◌}
use mathlib.Core.Logic.{inl, inr}
use prs.Base.Tests.{◌==◌, Bool-cases}
use native.Mathlib.Nat.{pow-suc, one-le-pow}
use native.Mathlib.Omega.{arith}

-- An operation on words that is given digit by digit: `base` is the result once the first word has
-- run out, `op` the operation on two digits.
module _ (base : ℕ → ℕ) (op : ℕ → ℕ → ℕ) (bits : ℕ → ℕ → ℕ)
    (bits-digits : (a b : ℕ) → bits a b ≡ digits base op a a b)
    (base_law : (b : ℕ) → base b ≡ base (b / 2) * 2 + op 0 (b % 2)) where
  -- One more round than the first word needs changes nothing.
  extra_round : (n a b : ℕ) → a ≤ n → digits base op (suc n) a b ≡ digits base op n a b
  extra_round zero zero b fits = refl
  extra_round zero (suc a) b fits = absurd (omega arith)
  extra_round (suc n) zero b fits = refl
  extra_round (suc n) (suc a) b fits =
      omega (arith, extra_round n (suc a / 2) (b / 2) (omega arith))

  enough_rounds : (n a b : ℕ) → a ≤ n → digits base op n a b ≡ bits a b
  enough_rounds zero zero b fits = sym (bits-digits 0 b)
  enough_rounds zero (suc a) b fits = absurd (omega arith)
  enough_rounds (suc n) a b fits = elim (Bool-cases (a == suc n)) [
    | inl e ↦ let same : a ≡ suc n = ground arith in rw same (sym (bits-digits (suc n) b))
    | inr e ↦ extra_round n a b (ground arith) ∙ enough_rounds n a b (ground arith)
  ]

  pub lowest_digit : (a b : ℕ) → bits a b ≡ bits (a / 2) (b / 2) * 2 + op (a % 2) (b % 2)
  lowest_digit zero b = bits-digits 0 b ∙ ground (arith, base_law b, bits-digits 0 (b / 2))
  lowest_digit (suc a) b =
      bits-digits (suc a) b ∙ omega (arith, enough_rounds a (suc a / 2) (b / 2) (omega arith))

  -- The result against a second word of zero.
  against_zero :
      (value : ℕ → ℕ)
      → value 0 ≡ base 0
      → ((a : ℕ) → value a ≡ value (a / 2) * 2 + op (a % 2) 0)
      → (n a : ℕ) → a ≤ n
      → bits a 0 ≡ value a
  against_zero value start next n zero fits = bits-digits 0 0 ∙ sym start
  against_zero value start next zero (suc a) fits = absurd (omega arith)
  against_zero value start next (suc n) (suc a) fits = omega (
    arith,
    lowest_digit (suc a) 0,
    next (suc a),
    against_zero value start next n (suc a / 2) (omega arith),
  )

zero_base : (b : ℕ) → 0 ≡ 0 * 2 + min 0 (b % 2)
zero_base b = omega arith

same_base : (b : ℕ) → b ≡ b / 2 * 2 + max 0 (b % 2)
same_base b = omega arith

and_digit : (a b : ℕ) → bit_and a b ≡ bit_and (a / 2) (b / 2) * 2 + min (a % 2) (b % 2)
and_digit = lowest_digit (λ _. 0) min bit_and bit_and-bitwise zero_base

or_digit : (a b : ℕ) → bit_or a b ≡ bit_or (a / 2) (b / 2) * 2 + max (a % 2) (b % 2)
or_digit = lowest_digit (λ b. b) max bit_or bit_or-bitwise same_base

pub zero-bit_and : (b : ℕ) → bit_and 0 b ≡ 0
zero-bit_and = bit_and-bitwise 0

zero-bit_or : (b : ℕ) → bit_or 0 b ≡ b
zero-bit_or = bit_or-bitwise 0

pub bit_and-zero : (a : ℕ) → bit_and a 0 ≡ 0
bit_and-zero a =
    against_zero (λ _. 0) min bit_and bit_and-bitwise zero_base (λ _. 0) refl (λ a. omega arith) a a
      (omega arith)

pub bit_or-zero : (a : ℕ) → bit_or a 0 ≡ a
bit_or-zero a =
    against_zero (λ b. b) max bit_or bit_or-bitwise same_base (λ a. a) refl (λ a. omega arith) a a
      (omega arith)

-- A word is cut at bit `k` into `a` above and `x` below.
pub half-split : (k a x : ℕ) → (a * 2 ^ suc k + x) / 2 ≡ a * 2 ^ k + x / 2
half-split k a x = omega (arith, ap (λ (t : ℕ). a * t) (pow-suc 2 k))

pub digit-split : (k a x : ℕ) → (a * 2 ^ suc k + x) % 2 ≡ x % 2
digit-split k a x = omega (arith, ap (λ (t : ℕ). a * t) (pow-suc 2 k))

-- Both operations work on the two pieces separately.
pub bit_and-split :
    (k a b x y : ℕ)
    → x < 2 ^ k
    → y < 2 ^ k
    → bit_and (a * 2 ^ k + x) (b * 2 ^ k + y) ≡ bit_and a b * 2 ^ k + bit_and x y
bit_and-split zero a b zero zero p q = ground arith
bit_and-split zero a b zero (suc y) p q = absurd (omega arith)
bit_and-split zero a b (suc x) y p q = absurd (omega arith)
bit_and-split (suc k) a b x y p q = ground (
  arith,
  and_digit (a * 2 ^ suc k + x) (b * 2 ^ suc k + y),
  and_digit x y,
  half-split k a x,
  half-split k b y,
  digit-split k a x,
  digit-split k b y,
  pow-suc 2 k,
  ap (λ (t : ℕ). bit_and a b * t) (pow-suc 2 k),
  bit_and-split k a b (x / 2) (y / 2) (omega (arith, pow-suc 2 k)) (omega (arith, pow-suc 2 k)),
)

pub bit_or-split :
    (k a b x y : ℕ)
    → x < 2 ^ k
    → y < 2 ^ k
    → bit_or (a * 2 ^ k + x) (b * 2 ^ k + y) ≡ bit_or a b * 2 ^ k + bit_or x y
bit_or-split zero a b zero zero p q = ground arith
bit_or-split zero a b zero (suc y) p q = absurd (omega arith)
bit_or-split zero a b (suc x) y p q = absurd (omega arith)
bit_or-split (suc k) a b x y p q = ground (
  arith,
  or_digit (a * 2 ^ suc k + x) (b * 2 ^ suc k + y),
  or_digit x y,
  half-split k a x,
  half-split k b y,
  digit-split k a x,
  digit-split k b y,
  pow-suc 2 k,
  ap (λ (t : ℕ). bit_or a b * t) (pow-suc 2 k),
  bit_or-split k a b (x / 2) (y / 2) (omega (arith, pow-suc 2 k)) (omega (arith, pow-suc 2 k)),
)

bit_and-ones : (k x : ℕ) → x < 2 ^ k → bit_and x (2 ^ k - 1) ≡ x
bit_and-ones zero zero p = refl
bit_and-ones zero (suc x) p = absurd (omega arith)
bit_and-ones (suc k) x p = ground (
  arith,
  and_digit x (2 ^ suc k - 1),
  pow-suc 2 k,
  one-le-pow k 2,
  bit_and-ones k (x / 2) (omega (arith, pow-suc 2 k)),
)

-- `x & ((1 << k) - 1)`.
pub bit_and-low : (k x : ℕ) → bit_and x (2 ^ k - 1) ≡ x % 2 ^ k
bit_and-low k x = ground (
  arith,
  one-le-pow k 2,
  bit_and-zero (x / 2 ^ k),
  bit_and-split k (x / 2 ^ k) 0 (x % 2 ^ k) (2 ^ k - 1),
  bit_and-ones k (x % 2 ^ k),
)

-- `x & (((1 << k) - 1) << s)`.
pub bit_and-field : (s k x : ℕ) → bit_and x ((2 ^ k - 1) * 2 ^ s) ≡ x / 2 ^ s % 2 ^ k * 2 ^ s
bit_and-field s k x = ground (
  arith,
  one-le-pow s 2,
  bit_and-zero (x % 2 ^ s),
  bit_and-split s (x / 2 ^ s) (2 ^ k - 1) (x % 2 ^ s) 0,
  bit_and-low k (x / 2 ^ s),
)

-- `|` of a multiple of `2 ^ k` with what lies below is a sum.
pub bit_or-add : (k a x : ℕ) → x < 2 ^ k → bit_or (a * 2 ^ k) x ≡ a * 2 ^ k + x
bit_or-add k a x p =
    ground (arith, one-le-pow k 2, bit_or-zero a, zero-bit_or x, bit_or-split k a 0 0 x)
