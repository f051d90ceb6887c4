-- ===== src/Base/Xor.antt =====
-- `^` on words that agree above a bit position.
use Prim.Native.Nat.{
  ℕ, zero, suc, ◌+◌, ◌*◌, ◌/◌, ◌%◌, ◌^◌, ◌≤◌, ◌<◌, bit_xor, differ, bit_xor-bitwise,
}
use mathlib.Core.Path.{◌≡◌, refl, ap}
use native.Mathlib.Nat.{pow-suc}
use native.Mathlib.Omega.{arith}
use prs.Base.Bits.{lowest_digit, half-split}

bit_base : (b : ℕ) → b ≡ b / 2 * 2 + differ 0 (b % 2)
bit_base b = omega arith

xor_digit : (a b : ℕ) → bit_xor a b ≡ bit_xor (a / 2) (b / 2) * 2 + differ (a % 2) (b % 2)
xor_digit = lowest_digit (λ b. b) differ bit_xor bit_xor-bitwise bit_base

differ_self : (d : ℕ) → differ d d ≡ 0
differ_self zero = refl
differ_self (suc d) = differ_self d

xor_self : (n a : ℕ) → a ≤ n → bit_xor a a ≡ 0
xor_self n zero fits = refl
xor_self zero (suc a) fits = absurd (omega arith)
xor_self (suc n) (suc a) fits = omega (
  arith,
  xor_digit (suc a) (suc a),
  differ_self (suc a % 2),
  xor_self n (suc a / 2) (omega arith),
)

differ_small : (d e : ℕ) → d < 2 → e < 2 → differ d e < 2
differ_small zero e p q = q
differ_small (suc d) zero p q = p
differ_small (suc d) (suc e) p q = differ_small d e (omega arith) (omega arith)

-- Two words with the same bits from `k` on differ below `k` only.
pub xor-low :
    (k a x y : ℕ) → x < 2 ^ k → y < 2 ^ k → bit_xor (a * 2 ^ k + x) (a * 2 ^ k + y) < 2 ^ k
xor-low zero a zero zero p q = omega (arith, xor_self (a * 1 + 0) (a * 1 + 0) (omega arith))
xor-low zero a zero (suc y) p q = absurd (omega arith)
xor-low zero a (suc x) y p q = absurd (omega arith)
xor-low (suc k) a x y p q = omega (
  arith,
  xor_digit (a * 2 ^ suc k + x) (a * 2 ^ suc k + y),
  differ_small ((a * 2 ^ suc k + x) % 2) ((a * 2 ^ suc k + y) % 2) (omega arith) (omega arith),
  ap (λ (t : ℕ). bit_xor t ((a * 2 ^ suc k + y) / 2)) (half-split k a x),
  ap (λ (t : ℕ). bit_xor (a * 2 ^ k + x / 2) t) (half-split k a y),
  pow-suc 2 k,
  xor-low k a (x / 2) (y / 2) (omega (arith, pow-suc 2 k)) (omega (arith, pow-suc 2 k)),
)

differ_zero : (d e : ℕ) → differ d e ≡ 0 → d ≡ e
differ_zero zero zero same = refl
differ_zero zero (suc e) same = absurd (omega (arith, same))
differ_zero (suc d) zero same = absurd (omega (arith, same))
differ_zero (suc d) (suc e) same = ap suc (differ_zero d e same)

-- Two words that differ in no bit are the same.
pub xor_zero : (n a b : ℕ) → a ≤ n → b ≤ n → bit_xor a b ≡ 0 → a ≡ b
xor_zero zero a b p q same = omega arith
xor_zero (suc n) a b p q same =
    let digit = xor_digit a b in
    let high : bit_xor (a / 2) (b / 2) ≡ 0 = omega (arith, digit, same) in
    let low : differ (a % 2) (b % 2) ≡ 0 = omega (arith, digit, same) in
    omega (
      arith,
      xor_zero n (a / 2) (b / 2) (omega arith) (omega arith) high,
      differ_zero (a % 2) (b % 2) low,
    )
