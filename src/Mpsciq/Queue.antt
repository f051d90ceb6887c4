-- ===== src/Mpsciq/Queue.antt =====
-- What a queue of prs/lib/ds/mpsciq.c holds: `ys` are the nodes, newest first, whose `prev` links
-- are not built yet, and `zs` those behind them, which are linked in both directions.
use prs.Base.{
  ℕ, ◌+◌, ◌-◌, ◌^◌, ◌<◌, ◌≡◌, ◌≢◌, refl, ◌∙◌, true, false, List, [], ◌∷◌, ◌++◌, arith, length,
}
use prs.Chain.Seg.{
  has, first_or, last_or, Seg, Apart, ne_of_has, Seg-frame, outside-append, Apart-cons,
}
use prs.Mpsciq.{Mpsciq, push}

-- Nodes that lead to `a` by `next` and have no `prev` link.
abbrev pub Fresh : (next prev : ℕ → ℕ) → ℕ → List ℕ → Type 0
Fresh next prev a [] = Unit {0}
Fresh next prev a (x ∷ xs) =
    (prev x ≡ 0) × (next x ≡ first_or a xs) × (x ≢ 0) × (has x xs ≡ false) × Fresh next prev a xs

pub record IsQueue (q : Mpsciq) (ys zs : List ℕ) : Type 0 where
  pub fresh : Fresh q.next q.prev (first_or 0 zs) ys
  pub linked : Seg q.next q.prev 0 0 zs
  pub apart : Apart ys zs
  pub head : q.head ≡ first_or (first_or 0 zs) ys
  pub reverse_tail : q.reverse_tail ≡ first_or 0 zs
  pub reverse_head : q.reverse_head ≡ last_or 0 zs
  pub small : length (ys ++ zs) < 2 ^ 64 - 1

-- The queue holds the nodes `xs`, newest first.
pub record Holds (q : Mpsciq) (xs : List ℕ) : Type 0 where
  pub ys : List ℕ
  pub zs : List ℕ
  pub parts : xs ≡ ys ++ zs
  pub is : IsQueue q ys zs

pub Fresh-frame :
    (next prev next' prev' : ℕ → ℕ) (a : ℕ) (xs : List ℕ)
    → Fresh next prev a xs
    → ((x : ℕ) → has x xs ≡ true → next' x ≡ next x)
    → ((x : ℕ) → has x xs ≡ true → prev' x ≡ prev x)
    → Fresh next' prev' a xs
Fresh-frame next prev next' prev' a [] f n p = tt
Fresh-frame next prev next' prev' a (x ∷ xs) f n p = (
  p x (ground arith) ∙ f.0,
  n x (ground arith) ∙ f.1,
  f.2,
  f.3,
  Fresh-frame next prev next' prev' a xs f.4 (λ z h. n z (ground arith))
      (λ z h. p z (ground arith)),
)

pub push-IsQueue :
    (q : Mpsciq) (ys zs : List ℕ) (node : ℕ)
    → IsQueue q ys zs
    → node ≢ 0
    → has node (ys ++ zs) ≡ false
    → q.next node ≡ 0
    → q.prev node ≡ 0
    → length (ys ++ zs) + 1 < 2 ^ 64 - 1
    → IsQueue (push q node) (node ∷ ys) zs
unfolding push
push-IsQueue q ys zs node is some_node fresh n p room =
    let out = outside-append node ys zs fresh in
    rw (n, p)
      (record {
        fresh = (
          p,
          ground (arith, is.head),
          some_node,
          out.0,
          Fresh-frame q.next q.prev _ _ (first_or 0 zs) ys is.fresh
              (λ x h. ground (arith, ne_of_has x node ys h out.0)) (λ x h. refl),
        );
        linked =
            Seg-frame q.next q.prev _ _ zs 0 0 is.linked
              (λ x h. ground (arith, ne_of_has x node zs h out.1)) (λ x h. refl);
        apart = Apart-cons node ys zs is.apart out.1;
        head = refl;
        reverse_tail = is.reverse_tail;
        reverse_head = is.reverse_head;
        small = omega (arith, room);
      })
