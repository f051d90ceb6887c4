-- ===== src/Idllist/Laws.antt =====
-- The intrusive list against the list of its nodes.
use prs.Base.{
  ℕ, zero, suc, ◌+◌, ◌-◌, ◌^◌, ◌<◌, ◌≡◌, ◌≢◌, refl, ◌∙◌, subst, Bool-cases, inl, inr, eq_of_test,
  true, false, some, List, [], ◌∷◌, ◌++◌, arith, ◌==◌, length,
}
use prs.Chain.{unlink}
use prs.Chain.Seg.{has, first_or, Seg, Seg-frame, Seg-back, ne_of_has, not-first}
use prs.Chain.Link.{IsChain, link-IsChain, unlink-IsChain, unlink-gone}
use prs.Chain.Walk.{search_from-has}
use prs.Idllist.{
  Idllist, insert_before, clear_node, remove, begin, next, is_empty, size, is_inserted,
  destroy_loop, destroy,
}

abbrev pub Holds : Idllist → List ℕ → Type 0
Holds l xs = IsChain l.chain xs

module _ (l : Idllist) where
  -- `prs_idllist_insert_before` of a node with cleared links, which is in no list, puts it in front
  -- of the given node, or at the end of the list if null is given in its place.
  pub insert_before-Holds :
      (ys zs : List ℕ) (node : ℕ)
      → Holds l (ys ++ zs)
      → node ≢ 0
      → has node (ys ++ zs) ≡ false
      → l.chain.next node ≡ 0
      → l.chain.prev node ≡ 0
      → length (ys ++ zs) + 1 < 2 ^ 64 - 1
      → Holds (insert_before l (first_or 0 zs) node) (ys ++ node ∷ zs)
  unfolding insert_before
  insert_before-Holds ys zs node holds some_node fresh n p room =
      rw (n, p) (link-IsChain ys zs node holds fresh some_node room)

  -- `prs_idllist_remove` takes a node out, keeps the others in order, and clears the links of the
  -- node, so that it can be inserted again.
  pub remove-Holds :
      (ys zs : List ℕ) (node : ℕ)
      → Holds l (ys ++ node ∷ zs)
      → let r = remove l node in
        Holds r (ys ++ zs)
        × (r.chain.next node ≡ 0)
        × (r.chain.prev node ≡ 0)
        × (has node (ys ++ zs) ≡ false)
  unfolding remove clear_node
  remove-Holds ys zs node holds =
      let out = unlink-gone ys zs node holds in
      let u = unlink-IsChain ys zs node holds in
      (
        record {
          seg =
              Seg-frame (unlink l.chain node).next (unlink l.chain node).prev _ _ (ys ++ zs) 0 0
                u.seg (λ x h. ground (arith, ne_of_has x node (ys ++ zs) h out))
                (λ x h. ground (arith, ne_of_has x node (ys ++ zs) h out));
          head = u.head;
          tail = u.tail;
          size = u.size;
          small = u.small;
        },
        ground arith,
        ground arith,
        out,
      )

  -- The first node and each successor are those of the list, `prs_idllist_empty` and
  -- `prs_idllist_size` answer for it, and `prs_idllist_is_inserted` whether a node is in it.
  pub observers :
      (xs : List ℕ)
      → Holds l xs
      → (begin l ≡ first_or 0 xs)
        × ((ys zs : List ℕ) (x : ℕ) → xs ≡ ys ++ x ∷ zs → next l x ≡ first_or 0 zs)
        × (is_empty l ≡ (length xs == 0))
        × (size l ≡ length xs)
        × ((node : ℕ) → is_inserted l node ≡ has node xs)
  unfolding begin next is_empty size is_inserted
  observers xs holds = (
    holds.head,
    λ ys zs x e.
        let s = subst (λ l'. Seg l.chain.next l.chain.prev 0 0 l') e holds.seg in
        (Seg-back l.chain.next l.chain.prev ys (x ∷ zs) 0 0 s).1,
    rw holds.size refl,
    holds.size,
    λ node.
        rw (holds.head, holds.size)
          (search_from-has l.chain.next l.chain.prev (suc (length xs)) node xs 0 holds.seg
            (omega arith)),
  )

-- Taking out the first node writes no link of a node that is not in the list.
remove_first-frame :
    (l : Idllist) (x : ℕ) (xs : List ℕ) (z : ℕ)
    → Holds l (x ∷ xs)
    → z ≢ 0
    → has z (x ∷ xs) ≡ false
    → ((remove l x).chain.next z ≡ l.chain.next z) × ((remove l x).chain.prev z ≡ l.chain.prev z)
unfolding remove clear_node unlink
remove_first-frame l x xs z holds ne out =
    rw (holds.seg.0, holds.seg.1)
      (ground (arith, not-first z xs ne), ground (arith, not-first z xs ne))

-- What the loop leaves of a list of the nodes `xs`.
pub record Emptied (l : Idllist) (xs : List ℕ) (r : Idllist) : Type 0 where
  pub empty : Holds r []
  pub cleared : (x : ℕ) → has x xs ≡ true → (r.chain.next x ≡ 0) × (r.chain.prev x ≡ 0)
  pub others :
      (z : ℕ)
      → z ≢ 0
      → has z xs ≡ false
      → (r.chain.next z ≡ l.chain.next z) × (r.chain.prev z ≡ l.chain.prev z)

begin_lem : (l : Idllist) {x : ℕ} → l.chain.head ≡ x → begin l ≡ x
unfolding begin
begin_lem l e = e

destroy_loop-next :
    (n : ℕ) (l : Idllist) (x : ℕ)
    → begin l ≡ x
    → x ≢ 0
    → destroy_loop (suc n) l ≡ destroy_loop n (remove l x)
unfolding destroy_loop
destroy_loop-next n l x e ne = rw e (ground arith)

destroy_loop-Emptied :
    (fuel : ℕ) (xs : List ℕ) (l : Idllist)
    → Holds l xs
    → length xs < fuel
    → (r : Idllist) × (destroy_loop fuel l ≡ some r) × Emptied l xs r
unfolding destroy_loop begin
destroy_loop-Emptied zero xs l holds fuel = absurd (omega arith)
destroy_loop-Emptied (suc n) [] l holds fuel = (
  l,
  rw holds.head refl,
  record { empty = holds; cleared = λ x h. absurd (ground arith); others = λ z a b. (refl, refl) },
)
destroy_loop-Emptied (suc n) (x ∷ xs) l holds fuel =
    let (holds', n', p', out) = remove-Holds l [] xs x holds in
    let (r, e, left) = destroy_loop-Emptied n xs (remove l x) holds' (omega arith) in
    (
      r,
      destroy_loop-next n l x (begin_lem l holds.head) holds.seg.2 ∙ e,
      record {
        empty = left.empty;
        cleared = λ z h. elim (Bool-cases (z == x)) [
          | inl same ↦
              let mine = left.others x holds.seg.2 out in
              rw (eq_of_test z x same) (mine.0 ∙ n', mine.1 ∙ p')
          | inr other ↦ left.cleared z (ground arith)
        ];
        others = λ z ne h.
            let here = remove_first-frame l x xs z holds ne h in
            let there = left.others z ne (ground arith) in (there.0 ∙ here.0, there.1 ∙ here.1);
      },
    )

-- `prs_idllist_destroy` ends, takes every node out and clears the links of each, so that the nodes
-- can be inserted into other lists.
pub destroy-Emptied :
    (l : Idllist) (xs : List ℕ) → Holds l xs → (r : Idllist) × (destroy l ≡ some r) × Emptied l xs r
unfolding destroy
destroy-Emptied l xs holds =
    destroy_loop-Emptied (suc l.chain.size) xs l holds (omega (arith, holds.size))
