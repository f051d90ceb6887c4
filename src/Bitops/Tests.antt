-- ===== src/Bitops/Tests.antt =====
-- Runs of include/prs/pal/bitops.h, and each theorem at an input.
use prs.Base.{◌^◌, ◌≡◌, refl, true, false, none, some}
use prs.Bitops.{
  lsb, lsb_loop, clz, ctz, hsb_uint, lsb_uint64, lsb_uint32, lsb_uint, next_power_of_2,
  is_power_of_2,
}

-- The loop for the lowest bit stops before the highest one.
lowest :
    (lsb 32 12 ≡ some 2)
    × (lsb_uint32 12 ≡ some 2)
    × (lsb 32 (2 ^ 31) ≡ none)
    × (lsb_uint32 (2 ^ 31) ≡ some 31)
    × (lsb_uint 0 ≡ none)
unfolding lsb lsb_loop lsb_uint lsb_uint64 lsb_uint32 ctz
lowest = (refl, refl, refl, refl, refl)

powers :
    (next_power_of_2 17 ≡ 32)
    × (next_power_of_2 32 ≡ 32)
    × (is_power_of_2 64 ≡ true)
    × (is_power_of_2 0 ≡ false)
    × (is_power_of_2 12 ≡ false)
    × (hsb_uint 12 ≡ some 3)
unfolding next_power_of_2 is_power_of_2 hsb_uint clz
powers = (refl, refl, refl, refl, refl, refl)
