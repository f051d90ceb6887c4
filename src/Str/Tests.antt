-- ===== src/Str/Tests.antt =====
-- Runs of prs/lib/str.c, and its theorem at an input.
use prs.Base.{◌≡◌, refl, [], ◌∷◌, arith}
use prs.Str.{copy_loop, terminate, append, copy}
use prs.Str.Laws.{Appended, append-Appended}

-- The bytes 1, 2, 3 fill a buffer of three bytes; the terminator overwrites what follows it.
overrun :
    let (r, pos) = copy (λ _. 9) (1 ∷ 2 ∷ 3 ∷ []) 3 in (pos ≡ 3) × (r 2 ≡ 3) × (r 3 ≡ 0) × (r 4 ≡ 9)
unfolding copy append copy_loop terminate
overrun = (refl, refl, refl, refl)

append-Appended_example :
    Appended (λ _. 9) (1 ∷ 2 ∷ 3 ∷ []) 2 4 (append (λ _. 9) (1 ∷ 2 ∷ 3 ∷ []) 2 4)
append-Appended_example = append-Appended (λ _. 9) (1 ∷ 2 ∷ 3 ∷ []) 2 4 (omega arith)
