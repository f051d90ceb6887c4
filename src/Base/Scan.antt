-- ===== src/Base/Scan.antt =====
-- The search loop of the allocators: `for (i = write_index; i < end; ++i)`, which stops at the first
-- index that passes the test.
use Prim.Native.Nat.{ℕ, zero, suc, ◌+◌, ◌^◌, ◌≤◌, ◌<◌}
use mathlib.Core.Path.{◌≡◌, refl}
use mathlib.Core.Logic.{inl, inr}
use mathlib.Core.Bool.{Bool, true, false}
use mathlib.Core.Option.{Option, none, some}
use native.Mathlib.Omega.{arith}
use prs.Base.Tests.{◌==◌, ltb, if◌then◌else◌, Bool-cases}
use prs.Base.Word.{word}

-- With the rounds left; an index wraps at 64 bits.
unfoldable pub scan : ℕ → (ℕ → Bool) → (i end : ℕ) → Option ℕ
scan zero test i end = none
scan (suc rounds) test i end =
    let rest = scan rounds test (word (i + 1)) end in
    if ltb i end then (if test i then some i else rest) else none

module _ (test : ℕ → Bool) where
  -- It finds the first index, given a round for each index of the range.
  pub scan-first :
      (rounds i end id : ℕ)
      → end < 2 ^ 64
      → end ≤ i + rounds
      → i ≤ id
      → id < end
      → test id ≡ true
      → ((m : ℕ) → i ≤ m → m < id → test m ≡ false)
      → scan rounds test i end ≡ some id
  unfolding scan
  scan-first zero i end id small fuel lo hi takes busy = absurd (omega arith)
  scan-first (suc rounds) i end id small fuel lo hi takes busy = elim (Bool-cases (i == id)) [
    | inl e ↦ ground arith
    | inr e ↦ ground (
      arith,
      busy i,
      scan-first rounds (word (i + 1)) end id small (omega arith) (ground arith) hi takes
          (λ m l. busy m (omega arith)),
    )
  ]

  pub scan-none :
      (rounds i end : ℕ)
      → end < 2 ^ 64
      → ((m : ℕ) → i ≤ m → m < end → test m ≡ false)
      → scan rounds test i end ≡ none
  unfolding scan
  scan-none zero i end small busy = refl
  scan-none (suc rounds) i end small busy = elim (Bool-cases (ltb i end)) [
    | inl e ↦
        ground
          (arith, busy i, scan-none rounds (word (i + 1)) end small (λ m l. busy m (ground arith)))
    | inr e ↦ ground arith
  ]

  -- What it finds passes the test and lies in the range.
  pub scan-some :
      (rounds i end id : ℕ)
      → end < 2 ^ 64
      → scan rounds test i end ≡ some id
      → (i ≤ id) × (id < end) × (test id ≡ true)
  unfolding scan
  scan-some zero i end id small e = absurd (ground arith)
  scan-some (suc rounds) i end id small e = ground (arith, scan-some rounds (word (i + 1)) end id)
