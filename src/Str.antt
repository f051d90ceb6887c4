-- ===== src/Str.antt =====
-- prs/lib/str.c: copying strings into buffers. A buffer is a memory of bytes, by index; `src` is the
-- source string without its terminator. The functions on formats are `vsnprintf` and are not here.
pub mod Laws
mod Tests
use prs.Base.{ℕ, ◌+◌, List, [], ◌∷◌, ltb, if◌then◌else◌, update}

-- The loop of `prs_str_append`, with the index after it.
unfoldable pub copy_loop : (dst : ℕ → ℕ) → (src : List ℕ) → (pos max : ℕ) → (ℕ → ℕ) × ℕ
copy_loop dst [] pos max = (dst, pos)
copy_loop dst (c ∷ cs) pos max =
    let rest = copy_loop (update dst pos c) cs (pos + 1) max in
    if ltb pos max then rest else (dst, pos)

unfoldable pub terminate : (ℕ → ℕ) × ℕ → (ℕ → ℕ) × ℕ
terminate (dst, pos) = (update dst pos 0, pos)

-- The buffer and the result.
unfoldable pub append : (dst : ℕ → ℕ) → (src : List ℕ) → (offset max : ℕ) → (ℕ → ℕ) × ℕ
append dst src offset max = terminate (copy_loop dst src offset max)

unfoldable pub copy : (dst : ℕ → ℕ) → (src : List ℕ) → (max : ℕ) → (ℕ → ℕ) × ℕ
copy dst src max = append dst src 0 max
