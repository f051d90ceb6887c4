-- ===== src/Bitops.antt =====
-- include/prs/pal/bitops.h: bit positions, powers of two and alignment. `prs_int_t` results are
-- optional: `none` is -1. GCC's builtins `__builtin_clz` and `__builtin_ctz` count zeros from the top
-- and from the bottom.
pub mod Laws
mod Tests
use prs.Base.{
  ℕ, zero, suc, ◌+◌, ◌-◌, ◌*◌, ◌/◌, ◌%◌, ◌^◌, Bool, not, ◌&&◌, Option, none, some, bit_and, bit_or,
  ◌==◌, if◌then◌else◌, word, sub_word,
}

-- The loop of `_PRS_BITOPS_HSB`, from the position below `left` down.
unfoldable pub hsb_loop : (left v : ℕ) → Option ℕ
hsb_loop zero v = none
hsb_loop (suc pos) v =
    let rest = hsb_loop pos v in if not (bit_and v (2 ^ pos) == 0) then some pos else rest

-- The loop of `_PRS_BITOPS_LSB`, with the number of rounds left.
unfoldable pub lsb_loop : (left pos v : ℕ) → Option ℕ
lsb_loop zero pos v = none
lsb_loop (suc left) pos v =
    let rest = lsb_loop left (pos + 1) v in
    if not (bit_and v (2 ^ pos) == 0) then some pos else rest

-- The macros on a type of `bits` bits.
unfoldable pub hsb : (bits v : ℕ) → Option ℕ
hsb bits v = hsb_loop bits v

unfoldable pub lsb : (bits v : ℕ) → Option ℕ
lsb bits v = lsb_loop (bits - 1) 0 v

unfoldable pub clz : (bits v : ℕ) → ℕ
clz zero v = 0
clz (suc bits) v = let rest = clz bits v in if v / 2 ^ bits % 2 == 0 then suc rest else 0

unfoldable pub ctz : (bits v : ℕ) → ℕ
ctz zero v = 0
ctz (suc bits) v = let rest = ctz bits (v / 2) in if v % 2 == 0 then suc rest else 0

-- The functions as GCC compiles them.
unfoldable pub hsb_uint64 : ℕ → Option ℕ
hsb_uint64 v = if v == 0 then none else some (64 - clz 64 v - 1)

unfoldable pub hsb_uint32 : ℕ → Option ℕ
hsb_uint32 v = if v == 0 then none else some (32 - clz 32 v - 1)

unfoldable pub hsb_uint : ℕ → Option ℕ
unfolding hsb_uint64
hsb_uint v = hsb_uint64 v

unfoldable pub lsb_uint64 : ℕ → Option ℕ
lsb_uint64 v = if v == 0 then none else some (ctz 64 v)

unfoldable pub lsb_uint32 : ℕ → Option ℕ
lsb_uint32 v = if v == 0 then none else some (ctz 32 v)

unfoldable pub lsb_uint : ℕ → Option ℕ
unfolding lsb_uint64
lsb_uint v = lsb_uint64 v

-- `v |= v >> shift`
unfoldable pub smear : (shift v : ℕ) → ℕ
smear shift v = bit_or v (v / 2 ^ shift)

unfoldable pub next_power_of_2 : ℕ → ℕ
unfolding smear
next_power_of_2 v =
    word (smear 32 (smear 16 (smear 8 (smear 4 (smear 2 (smear 1 (sub_word v 1)))))) + 1)

unfoldable pub align_size : (size align : ℕ) → ℕ
align_size size align =
    let mask = sub_word align 1 in bit_and (word (size + mask)) (2 ^ 64 - 1 - mask)

unfoldable pub is_power_of_2 : ℕ → Bool
is_power_of_2 value = not (value == 0) && (bit_and value (sub_word value 1) == 0)
