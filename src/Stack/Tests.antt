-- ===== src/Stack/Tests.antt =====
-- Runs of the stacks of prs/alloc/stack.c, and each theorem at an input.
use prs.Base.{◌-◌, ◌^◌, ◌≡◌, refl, true, false}
use prs.Stack.{address_in_range}

-- An address in the range, and the first one behind it.
in_range :
    (address_in_range (2 ^ 30) (2 ^ 30 - 1) ≡ true) × (address_in_range (2 ^ 30) (2 ^ 30) ≡ false)
unfolding address_in_range
in_range = (refl, refl)
