-- ===== src/Dllist/Laws.antt =====
-- The list of prs/lib/ds/dllist.c against the list of its nodes, and the memory of the nodes.
use prs.Base.{
  ℕ, zero, suc, ◌+◌, ◌-◌, ◌^◌, ◌<◌, ◌≡◌, ◌≢◌, refl, ◌∙◌, subst, Bool-cases, true, false, some, List,
  [], ◌∷◌, ◌++◌, arith, ◌==◌, if◌then◌else◌, length,
}
use prs.Base.Result.{ok, out_of_memory}
use prs.Chain.Seg.{has, has-append, first_or, Seg, Seg-back, ne_of_has}
use prs.Chain.Link.{IsChain, link-IsChain, unlink-IsChain, unlink-gone}
use prs.Dllist.{
  Dllist, insert_before, remove, begin, next, is_empty, size, get_data, destroy_loop, destroy,
}

-- The list holds the nodes `xs`, and each of them is allocated.
pub record Holds (l : Dllist) (xs : List ℕ) : Type 0 where
  pub chain : IsChain l.chain xs
  pub live : (x : ℕ) → has x xs ≡ true → l.live x ≡ true

module _ (l : Dllist) where
  -- `prs_dllist_insert_before` with a fresh node puts the element in front of the given node, or at
  -- the end of the list if null is given in its place, and keeps the elements of the other nodes.
  pub insert_before-adds :
      (ys zs : List ℕ) (node element : ℕ)
      → Holds l (ys ++ zs)
      → node ≢ 0
      → l.live node ≡ false
      → length (ys ++ zs) + 1 < 2 ^ 64 - 1
      → let (r, result) = insert_before node l (first_or 0 zs) element in
        (result ≡ ok)
        × Holds r (ys ++ node ∷ zs)
        × (get_data r node ≡ element)
        × ((x : ℕ) → x ≢ node → get_data r x ≡ get_data l x)
  unfolding insert_before get_data
  insert_before-adds ys zs node element holds some_node fresh room =
      let out : has node (ys ++ zs) ≡ false =
        ground (arith, holds.live node, Bool-cases (has node (ys ++ zs))) in
      let taken : (node == 0) ≡ false = ground arith in
      rw taken (
        refl,
        record {
          chain = link-IsChain ys zs node holds.chain out some_node room;
          live =
              λ x h. ground (arith, holds.live x, has-append x ys zs, has-append x ys (node ∷ zs));
        },
        ground arith,
        λ x ne. ground arith,
      )

  -- Without memory it returns `PRS_OUT_OF_MEMORY` and changes nothing.
  insert_before-null : (before element : ℕ) → insert_before 0 l before element ≡ (l, out_of_memory)
  unfolding insert_before
  insert_before-null before element = refl

  pub remove-frees :
      (ys zs : List ℕ) (node : ℕ) → Holds l (ys ++ node ∷ zs) → Holds (remove l node) (ys ++ zs)
  unfolding remove
  remove-frees ys zs node holds = record {
    chain = unlink-IsChain ys zs node holds.chain;
    live = λ x h. ground (
      arith,
      ne_of_has x node (ys ++ zs) h (unlink-gone ys zs node holds.chain),
      holds.live x,
      has-append x ys zs,
      has-append x ys (node ∷ zs),
    );
  }

  -- The list reads as the nodes that it holds.
  pub contents :
      (xs : List ℕ)
      → Holds l xs
      → (begin l ≡ first_or 0 xs)
        × ((ys zs : List ℕ) (x : ℕ) → xs ≡ ys ++ x ∷ zs → next l x ≡ first_or 0 zs)
        × (is_empty l ≡ (length xs == 0))
        × (size l ≡ length xs)
  unfolding begin next is_empty size
  contents xs holds = (
    holds.chain.head,
    λ ys zs x e.
        let s = subst (λ l'. Seg l.chain.next l.chain.prev 0 0 l') e holds.chain.seg in
        (Seg-back l.chain.next l.chain.prev ys (x ∷ zs) 0 0 s).1,
    rw holds.chain.size refl,
    holds.chain.size,
  )

-- What `prs_dllist_destroy` leaves: an empty list, its nodes freed, all else allocated as before.
pub record Freed (l : Dllist) (xs : List ℕ) (r : Dllist) : Type 0 where
  pub empty : Holds r []
  pub live : (x : ℕ) → r.live x ≡ (if has x xs then false else l.live x)

live-remove :
    (l : Dllist) (node x : ℕ) → (remove l node).live x ≡ (if x == node then false else l.live x)
unfolding remove
live-remove l node x = refl

destroy_loop-end : (n : ℕ) (l : Dllist) → l.chain.head ≡ 0 → destroy_loop (suc n) l ≡ some l
unfolding destroy_loop begin
destroy_loop-end n l e = rw e refl

begin_lem : (l : Dllist) {x : ℕ} → l.chain.head ≡ x → begin l ≡ x
unfolding begin
begin_lem l e = e

destroy_loop-next :
    (n : ℕ) (l : Dllist) (x : ℕ)
    → l.chain.head ≡ x
    → x ≢ 0
    → destroy_loop (suc n) l ≡ destroy_loop n (remove l x)
unfolding destroy_loop
destroy_loop-next n l x e ne = rw (begin_lem l e) (ground arith)

destroy_loop-Freed :
    (fuel : ℕ) (xs : List ℕ) (l : Dllist)
    → Holds l xs
    → length xs < fuel
    → (r : Dllist) × (destroy_loop fuel l ≡ some r) × Freed l xs r
destroy_loop-Freed zero xs l holds fuel = absurd (omega arith)
destroy_loop-Freed (suc n) [] l holds fuel =
    (l, destroy_loop-end n l holds.chain.head, record { empty = holds; live = λ x. refl })
destroy_loop-Freed (suc n) (x ∷ xs) l holds fuel =
    let (r, e, left) =
      destroy_loop-Freed n xs (remove l x) (remove-frees l [] xs x holds) (omega arith) in
    (
      r,
      destroy_loop-next n l x holds.chain.head holds.chain.seg.2 ∙ e,
      record { empty = left.empty; live = λ z. left.live z ∙ ground (arith, live-remove l x z) },
    )

-- `prs_dllist_destroy` ends and frees each node of the list exactly: what was allocated besides is
-- allocated as before.
pub destroy-Freed :
    (l : Dllist) (xs : List ℕ) → Holds l xs → (r : Dllist) × (destroy l ≡ some r) × Freed l xs r
unfolding destroy
destroy-Freed l xs holds =
    destroy_loop-Freed (suc l.chain.size) xs l holds (omega (arith, holds.chain.size))
