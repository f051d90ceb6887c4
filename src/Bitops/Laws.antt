-- ===== src/Bitops/Laws.antt =====
-- The bit positions of include/prs/pal/bitops.h against powers of two.
use native.Mathlib.Nat.{
  pow-le-pow_right, pow-suc, one-le-pow, div-eq_of_lt, mul-sub, mod-eq_of_lt, div-eq_of_lt-le,
  div-lt_iff_lt-mul,
}
use prs.Base.{
  ℕ, zero, suc, ◌+◌, ◌-◌, ◌*◌, ◌/◌, ◌%◌, ◌^◌, ◌≤◌, ◌<◌, ◌≡◌, ◌≢◌, refl, ap, sym, ◌∙◌, false, none,
  some, bit_and, ◌==◌, ltb, subst, word, sub_word, arith, Bool-cases, inl, inr, ◌⊎◌,
}
use prs.Base.Bits.{bit_and-field, zero-bit_and}
use prs.Bitops.{hsb_loop, hsb, clz, hsb_uint64, hsb_uint32, align_size}

-- `v & ((t)1 << pos)`
bit_test : (v pos : ℕ) → bit_and v (2 ^ pos) ≡ v / 2 ^ pos % 2 * 2 ^ pos
bit_test v pos =
    let one : 2 ^ pos ≡ (2 ^ 1 - 1) * 2 ^ pos = omega arith in
    ap (bit_and v) one ∙ bit_and-field pos 1 v

top_bit : (v pos : ℕ) → 2 ^ pos ≤ v → v < 2 ^ suc pos → v / 2 ^ pos ≡ 1
top_bit v pos lo hi = div-eq_of_lt-le (2 ^ pos) (omega arith) (omega (arith, pow-suc 2 pos))

-- A word of one bit more is below the power of two of its highest bit, or has that bit.
high_bit :
    (bits v : ℕ)
    → v < 2 ^ suc bits
    → ((v < 2 ^ bits) × (v / 2 ^ bits ≡ 0)) ⊎ ((2 ^ bits ≤ v) × (v / 2 ^ bits ≡ 1))
high_bit bits v fits = elim (Bool-cases (ltb v (2 ^ bits))) [
  | inl e ↦ let low : v < 2 ^ bits = ground arith in inl (low, div-eq_of_lt low)
  | inr e ↦ let high : 2 ^ bits ≤ v = ground arith in inr (high, top_bit v bits high fits)
]

-- The position of the highest bit of a word that is not zero.
pub record HighestBit (bits v : ℕ) : Type 0 where
  pub pos : ℕ
  pub lo : 2 ^ pos ≤ v
  pub hi : v < 2 ^ suc pos
  pub fits : pos < bits

pub highest_bit : (bits v : ℕ) → v ≢ 0 → v < 2 ^ bits → HighestBit bits v
highest_bit zero v some_bit fits = absurd (omega arith)
highest_bit (suc bits) v some_bit fits = elim (high_bit bits v fits) [
  | inl (low, _) ↦
      let h = highest_bit bits v some_bit low in
      record { pos = h.pos; lo = h.lo; hi = h.hi; fits = omega (arith, h.fits) }
  | inr (high, _) ↦ record { pos = bits; lo = high; hi = fits; fits = omega arith }
]

-- The loop of the macro finds what GCC's count of leading zeros leaves.
hsb_loop-clz : (bits v : ℕ) → v ≢ 0 → v < 2 ^ bits → hsb_loop bits v ≡ some (bits - clz bits v - 1)
unfolding hsb_loop clz
hsb_loop-clz zero v some_bit fits = absurd (omega arith)
hsb_loop-clz (suc bits) v some_bit fits = elim (high_bit bits v fits) [
  | inl (low, zero_bit) ↦
      rw (bit_test v bits, zero_bit) (ground (arith, hsb_loop-clz bits v some_bit low))
  | inr (high, one_bit) ↦ rw (bit_test v bits, one_bit) (ground (arith, one-le-pow bits 2))
]

-- The loop of `_PRS_BITOPS_HSB` finds the highest bit that is set.
pub hsb_loop-highest :
    (bits v k : ℕ) → 2 ^ k ≤ v → v < 2 ^ suc k → k < bits → hsb_loop bits v ≡ some k
unfolding hsb_loop
hsb_loop-highest zero v k lo hi fits = absurd (omega arith)
hsb_loop-highest (suc bits) v k lo hi fits = elim (Bool-cases (k == bits)) [
  | inl e ↦
      let same : k ≡ bits = ground arith in
      let one_bit : v / 2 ^ bits ≡ 1 = subst (λ b. v / 2 ^ b ≡ 1) same (top_bit v k lo hi) in
      rw (bit_test v bits, one_bit) (ground (arith, one-le-pow bits 2))
  | inr e ↦
      let below : v < 2 ^ bits =
        omega
          (arith, pow-le-pow_right {n = 2} (omega arith) {i = suc k} {j = bits} (ground arith)) in
      rw (bit_test v bits, div-eq_of_lt below)
        (ground (arith, hsb_loop-highest bits v k lo hi (ground arith)))
]

hsb_loop-zero : (bits : ℕ) → hsb_loop bits 0 ≡ none
unfolding hsb_loop
hsb_loop-zero zero = refl
hsb_loop-zero (suc bits) = rw (zero-bit_and (2 ^ bits), hsb_loop-zero bits) refl

-- On a word of 64 bits, the loop that other compilers get and GCC's builtin agree, zero included.
pub hsb-hsb_uint64 : (v : ℕ) → v < 2 ^ 64 → hsb 64 v ≡ hsb_uint64 v
unfolding hsb hsb_uint64
hsb-hsb_uint64 v fits = elim (Bool-cases (v == 0)) [
  | inl e ↦ let same : v ≡ 0 = ground arith in rw same (hsb_loop-zero 64)
  | inr e ↦ rw e (hsb_loop-clz 64 v (ground arith) fits)
]

pub hsb_uint32-zero : hsb_uint32 0 ≡ none
unfolding hsb_uint32
hsb_uint32-zero = refl

-- `prs_bitops_hsb_uint32` of a word that is not zero is the position of its highest bit.
pub hsb_uint32-highest : (v k : ℕ) → 2 ^ k ≤ v → v < 2 ^ suc k → k < 32 → hsb_uint32 v ≡ some k
unfolding hsb_uint32
hsb_uint32-highest v k lo hi fits =
    let below : v < 2 ^ 32 =
      omega (arith, pow-le-pow_right {n = 2} (omega arith) {i = suc k} {j = 32} (omega arith)) in
    let some_bit : v ≢ 0 = omega (arith, one-le-pow k 2) in
    let test : (v == 0) ≡ false = ground arith in
    rw test (sym (hsb_loop-clz 32 v some_bit below) ∙ hsb_loop-highest 32 v k lo hi fits)

pow_add : (a b : ℕ) → 2 ^ (a + b) ≡ 2 ^ a * 2 ^ b
pow_add a zero = let same : a + 0 ≡ a = omega arith in rw same (omega arith)
pow_add a (suc b) =
    ground (arith, pow-suc 2 (a + b), pow_add a b, ap (λ (t : ℕ). 2 ^ a * t) (pow-suc 2 b))

-- `prs_bitops_align_size` with an alignment of `2 ^ k` is the smallest multiple of it that is not
-- below the size, where that fits a word.
pub align_size-multiple :
    (size k : ℕ)
    → k ≤ 64
    → size + 2 ^ k ≤ 2 ^ 64
    → align_size size (2 ^ k) ≡ (size + (2 ^ k - 1)) / 2 ^ k * 2 ^ k
unfolding align_size
align_size-multiple size k small fits =
    let a = 64 - k in
    let x = size + (2 ^ k - 1) in
    let full : a + k ≡ 64 = omega arith in
    let whole : 2 ^ a * 2 ^ k ≡ 2 ^ 64 = sym (pow_add a k) ∙ ap (λ (n : ℕ). 2 ^ n) full in
    let above : 2 ^ 64 - 1 - (2 ^ k - 1) ≡ (2 ^ a - 1) * 2 ^ k =
      omega (arith, whole, mul-sub (2 ^ k) (2 ^ a) 1, one-le-pow a 2, one-le-pow k 2) in
    let mask : sub_word (2 ^ k) 1 ≡ 2 ^ k - 1 = omega (arith, one-le-pow k 2) in
    let sum : word x ≡ x = omega (arith, one-le-pow k 2) in
    let low : x / 2 ^ k < 2 ^ a =
      (div-lt_iff_lt-mul {k = 2 ^ k} {x = x} {y = 2 ^ a} (omega (arith, one-le-pow k 2))).1
        (omega (arith, whole, one-le-pow k 2)) in
    rw (mask, sum, above, bit_and-field k a x, mod-eq_of_lt low) refl
