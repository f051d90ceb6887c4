-- ===== src/Chain/Walk.antt =====
-- Following `next` from the head of a list.
use prs.Base.{ℕ, zero, suc, ◌<◌, ◌≡◌, refl, List, [], ◌∷◌, arith, length}
use prs.Chain.{search_from}
use prs.Chain.Seg.{has, first_or, Seg}

-- The search answers whether the node is one of the list's, given a round more than it has nodes.
pub search_from-has :
    (next prev : ℕ → ℕ) (fuel node : ℕ) (xs : List ℕ) (b : ℕ)
    → Seg next prev b 0 xs
    → length xs < fuel
    → search_from fuel next node (first_or 0 xs) ≡ has node xs
unfolding search_from
search_from-has next prev zero node xs b s fuel = absurd (omega arith)
search_from-has next prev (suc n) node [] b s fuel = refl
search_from-has next prev (suc n) node (x ∷ xs) b s fuel =
    rw (s.1) (ground (arith, s.2, search_from-has next prev n node xs x s.4))
