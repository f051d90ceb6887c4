-- ===== src/Stack.antt =====
-- prs/alloc/stack.c off Windows: stacks of a fixed address range, of which only the upper end is
-- committed. The platform's `prs_pal_mem_map` returns an address or null, which is an argument; a
-- commit is the address and the size that `prs_pal_mem_commit` gets.
pub mod Laws
mod Tests
use prs.Base.{
  ℕ, ◌+◌, ◌-◌, ◌*◌, Bool, ◌&&◌, Option, none, some, ◌==◌, ltb, leb, if◌then◌else◌, word, sub_word,
}
use prs.Bitops.{align_size}

abbrev pub max_stack_size : ℕ
max_stack_size = 1 * 1024 * 1024

pub record Commit : Type 0 where
  pub address : ℕ
  pub size : ℕ

-- What a successful `prs_stack_create` returns, and what it has committed.
pub record Stack : Type 0 where
  pub stack : ℕ
  pub available_size : ℕ
  pub commit : Commit

unfoldable pub create : (page_size mapped size : ℕ) → Option Stack
create page_size mapped size =
    let aligned_size = align_size size page_size in
    let stack_limit = word (mapped + (max_stack_size - aligned_size)) in
    if ltb max_stack_size aligned_size
    then none
    else (if mapped == 0
        then none
        else some (record {
          stack = word (mapped + max_stack_size);
          available_size = aligned_size;
          commit = record { address = stack_limit; size = aligned_size };
        }))

-- What `prs_stack_destroy` unmaps: an address, and the size of the range.
unfoldable pub destroy : (stack : ℕ) → ℕ × ℕ
destroy stack = (sub_word stack max_stack_size, max_stack_size)

-- The commit and the new size, or `none` where the stack cannot grow. The old size is not used.
unfoldable pub grow : (page_size stack failed_ptr : ℕ) → Option (Commit × ℕ)
grow page_size stack failed_ptr =
    let required_size = sub_word stack failed_ptr in
    let grow_size = align_size required_size page_size in
    let aligned_new_size = align_size required_size page_size in
    let stack_bottom = sub_word stack max_stack_size in
    let stack_limit = word (stack_bottom + (max_stack_size - aligned_new_size)) in
    if ltb max_stack_size aligned_new_size
    then none
    else some (record { address = stack_limit; size = grow_size }, aligned_new_size)

unfoldable pub address_in_range : (stack address : ℕ) → Bool
address_in_range stack address = leb (sub_word stack max_stack_size) address && ltb address stack
