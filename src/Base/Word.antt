-- ===== src/Base/Word.antt =====
-- include/prs/pal/types.h on AMD64: `prs_uint_t`, `prs_size_t` and pointers are 64 bits wide.
use Prim.Native.Nat.{ℕ, ◌+◌, ◌-◌, ◌%◌, ◌^◌}
use prs.Base.Tests.{◌==◌, if◌then◌else◌}

abbrev pub word_mod : ℕ
word_mod = 2 ^ 64

-- Arithmetic wraps.
abbrev pub word : ℕ → ℕ
word n = n % word_mod

abbrev pub sub_word : ℕ → ℕ → ℕ
sub_word a b = (a + word_mod - b) % word_mod

-- A memory of cells, and the write of one cell.
abbrev pub update {ℓ} : {A : Type ℓ} → (ℕ → A) → ℕ → A → ℕ → A
update f i v j = if j == i then v else f j
