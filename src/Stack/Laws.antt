-- ===== src/Stack/Laws.antt =====
-- The bounds of the stacks of prs/alloc/stack.c.
use prs.Base.{
  ℕ, ◌+◌, ◌-◌, ◌^◌, ◌≤◌, ◌<◌, ◌≡◌, refl, Option, none, some, ◌==◌, if◌then◌else◌, word, sub_word,
  arith, Bool-cases, inl, inr, ltb, leb, ◌||◌, ◌&&◌,
}
use native.Mathlib.Nat.{one-le-pow, div-mul-le_self, lt-div-mul-add}
use prs.Bitops.{align_size}
use prs.Bitops.Laws.{align_size-multiple}
use prs.Stack.{Stack, Commit, max_stack_size, create, destroy, grow, address_in_range}

-- A size rounded up to pages is not below the size, and less than a page above it.
pub align_size-bounds :
    (size k : ℕ)
    → k ≤ 63
    → size + 2 ^ k ≤ 2 ^ 64
    → (size ≤ align_size size (2 ^ k)) × (align_size size (2 ^ k) < size + 2 ^ k)
align_size-bounds size k small fits =
    let x = size + (2 ^ k - 1) in
    let pages = align_size-multiple size k (omega arith) fits in
    let lower = div-mul-le_self x (2 ^ k) in
    let upper = lt-div-mul-add {a = x} {b = 2 ^ k} (omega (arith, one-le-pow k 2)) in
    (omega (arith, pages, upper, one-le-pow k 2), omega (arith, pages, lower, one-le-pow k 2))

-- What `prs_stack_create` and `prs_stack_grow` return for a size that is rounded to pages.
abbrev pub created : (mapped aligned : ℕ) → Option Stack
created mapped aligned =
    if ltb max_stack_size aligned || (mapped == 0)
    then none
    else some (record {
      stack = mapped + max_stack_size;
      available_size = aligned;
      commit = record { address = mapped + max_stack_size - aligned; size = aligned };
    })

abbrev pub grown : (stack aligned : ℕ) → Option (Commit × ℕ)
grown stack aligned =
    if ltb max_stack_size aligned
    then none
    else some (record { address = stack - aligned; size = aligned }, aligned)

-- `prs_stack_create` with pages of `2 ^ k` bytes commits the upper end of the range that is mapped,
-- which holds the requested size and less than a page more, and returns the end of the range. It
-- fails where the size does not fit the range or nothing is mapped. `prs_stack_destroy` of its
-- result unmaps exactly the range that was mapped.
pub create-commits :
    (k mapped size : ℕ)
    → k ≤ 63
    → size + 2 ^ k ≤ 2 ^ 64
    → mapped + max_stack_size < 2 ^ 64
    → let aligned = align_size size (2 ^ k) in
      (create (2 ^ k) mapped size ≡ created mapped aligned)
      × (size ≤ aligned)
      × (aligned < size + 2 ^ k)
      × (destroy (mapped + max_stack_size) ≡ (mapped, max_stack_size))
unfolding create destroy
create-commits k mapped size small fits range =
    let aligned = align_size size (2 ^ k) in
    let b = align_size-bounds size k small fits in
    let top : word (mapped + max_stack_size) ≡ mapped + max_stack_size = omega arith in
    let bottom : sub_word (mapped + max_stack_size) max_stack_size ≡ mapped = omega arith in
    let done : create (2 ^ k) mapped size ≡ created mapped aligned =
      elim (Bool-cases (ltb max_stack_size aligned)) [
        | inl e ↦ rw (create, e) refl
        | inr e ↦
            let limit : word (mapped + (max_stack_size - aligned))
                ≡ mapped + max_stack_size - aligned =
              ground arith in
            rw (create, e, top, limit) refl
      ] in
    (done, b.0, b.1, rw bottom refl)

-- `prs_stack_grow` for an address below the stack's end, with pages of `2 ^ k` bytes: it fails exactly
-- where the rounded size exceeds the range; else it commits everything from an address not above the
-- given one to the end of the stack, less than a page more than needed, and stays within the range.
pub grow-covers :
    (k stack failed_ptr : ℕ)
    → k ≤ 63
    → max_stack_size ≤ stack
    → stack < 2 ^ 64
    → failed_ptr < stack
    → stack - failed_ptr + 2 ^ k ≤ 2 ^ 64
    → let new_size = align_size (stack - failed_ptr) (2 ^ k) in
      (grow (2 ^ k) stack failed_ptr ≡ grown stack new_size)
      × (stack - new_size ≤ failed_ptr)
      × (new_size < stack - failed_ptr + 2 ^ k)
unfolding grow
grow-covers k stack failed_ptr small above fits below room =
    let new_size = align_size (stack - failed_ptr) (2 ^ k) in
    let b = align_size-bounds (stack - failed_ptr) k small room in
    let required : sub_word stack failed_ptr ≡ stack - failed_ptr = omega arith in
    let done : grow (2 ^ k) stack failed_ptr ≡ grown stack new_size =
      elim (Bool-cases (ltb max_stack_size new_size)) [
        | inl e ↦ rw (grow, required, e) refl
        | inr e ↦
            let limit : word (sub_word stack max_stack_size + (max_stack_size - new_size))
                ≡ stack - new_size =
              ground arith in
            rw (grow, required, e, limit) refl
      ] in
    (done, omega (arith, b.0), b.1)

-- `prs_stack_address_in_range` holds exactly of the addresses of the range.
pub address_in_range_lem :
    (stack address : ℕ)
    → max_stack_size ≤ stack
    → stack < 2 ^ 64
    → address_in_range stack address ≡ (leb (stack - max_stack_size) address && ltb address stack)
unfolding address_in_range
address_in_range_lem stack address above fits =
    let start : sub_word stack max_stack_size ≡ stack - max_stack_size = omega arith in
    rw start refl
