-- ===== src/Mpsciq/Remove.antt =====
-- `prs_mpsciq_remove` on the two shapes that a queue can have when the node is unlinked.
use prs.Base.{
  ℕ, ◌-◌, ◌^◌, ◌<◌, ◌≡◌, refl, Bool-cases, inl, inr, true, false, List, [], ◌∷◌, ◌++◌, arith, ◌==◌,
  length, update,
}
use prs.Chain.{Chain, update_if, unlink, unlink_between}
use prs.Chain.Seg.{
  has, first_or, Seg, has-tail, has-first, has-front, has-back, ne_of_has, not-first, not-last,
  Seg-frame,
}
use prs.Chain.Link.{IsChain, unlink-IsChain, unlink-gone}
use prs.Mpsciq.{Mpsciq, unlink_node}
use prs.Mpsciq.Queue.{Fresh, IsQueue, Fresh-frame}

-- The part of the queue that is linked in both directions, as a list.
unfoldable pub linked_chain : Mpsciq → ℕ → Chain
linked_chain q n = record {
  next = q.next;
  prev = q.prev;
  head = q.reverse_tail;
  tail = q.reverse_head;
  size = n;
}

pub linked-IsChain :
    (q : Mpsciq) (xs : List ℕ) → IsQueue q [] xs → IsChain (linked_chain q (length xs)) xs
unfolding linked_chain
linked-IsChain q xs is = record {
  seg = is.linked;
  head = is.reverse_tail;
  tail = is.reverse_head;
  size = refl;
  small = is.small;
}

module _ (q : Mpsciq) (node : ℕ) (ys zs : List ℕ) where
  module _ (n : ℕ) (is : IsChain (linked_chain q n) (ys ++ node ∷ zs)) (h : ℕ)
      (head : h ≡ first_or 0 (ys ++ zs)) where
    -- All nodes are linked in both directions.
    pub unlink-linked : IsQueue (unlink_node (record q { head = h }) node) [] (ys ++ zs)
    unfolding unlink_node linked_chain unlink unlink_between
    unlink-linked =
        let c = unlink-IsChain ys zs node is in
        let gone = unlink-gone ys zs node is in
        record {
          fresh = tt;
          linked =
              Seg-frame _ _ _ _ (ys ++ zs) 0 0 c.seg
                (λ x h. ground (arith, ne_of_has x node (ys ++ zs) h gone))
                (λ x h. ground (arith, ne_of_has x node (ys ++ zs) h gone));
          apart = λ z h. absurd (ground arith);
          head = head;
          reverse_tail = c.head;
          reverse_head = c.tail;
          small = c.small;
        }

  small_front : (x : ℕ) (xs : List ℕ) → length (x ∷ xs) < 2 ^ 64 - 1 → length xs < 2 ^ 64 - 1
  small_front x xs h = omega arith

  -- The newest node has no `prev` link, and neither has the one behind it.
  module _ (is : IsQueue q (node ∷ ys) zs) where
    -- The write through `next` stores the null that is there.
    unlink-prev : (x : ℕ) → has x (ys ++ zs) ≡ true → update_if q.prev (q.next node) 0 x ≡ q.prev x
    unlink-prev x h = elim (Bool-cases (x == q.next node)) [
      | inl e ↦ ground (arith, old x (same x e) h)
      | inr e ↦ ground arith
    ]
      where
        same : (x : ℕ) → (x == q.next node) ≡ true → x ≡ first_or (first_or 0 zs) ys
        same x e = ground (arith, is.fresh.1)

        old : (x : ℕ) → x ≡ first_or (first_or 0 zs) ys → has x (ys ++ zs) ≡ true → q.prev x ≡ 0
        old x e h = go ys zs is.fresh.4 is.linked e h
          where
            go :
                (ys zs : List ℕ)
                → Fresh q.next q.prev (first_or 0 zs) ys
                → Seg q.next q.prev 0 0 zs
                → x ≡ first_or (first_or 0 zs) ys
                → has x (ys ++ zs) ≡ true
                → q.prev x ≡ 0
            go (y ∷ ys) zs f s e h = rw e f.0
            go [] (z ∷ zs) f s e h = rw e s.0
            go [] [] f s e h = absurd (ground arith)

    prev_kept :
        (x : ℕ)
        → (x == node) ≡ false
        → has x (ys ++ zs) ≡ true
        → update (update_if q.prev (q.next node) 0) node 0 x ≡ q.prev x
    prev_kept x ne h = rw ne (unlink-prev x h)

    pub unlink-newest :
        (h : ℕ)
        → h ≡ first_or (first_or 0 zs) ys
        → IsQueue (unlink_node (record q { head = h }) node) ys zs
    unfolding unlink_node
    unlink-newest h head =
        let out = is.apart node (has-first node ys) in
        rw is.fresh.0 (record {
          fresh =
              Fresh-frame _ _ _ _ (first_or 0 zs) ys is.fresh.4
                (λ x h. rw (ne_of_has x node ys h is.fresh.3) refl)
                (λ x h. prev_kept x (ne_of_has x node ys h is.fresh.3) (has-front x ys zs h));
          linked =
              Seg-frame _ _ _ _ zs 0 0 is.linked (λ x h. rw (ne_of_has x node zs h out) refl)
                (λ x h. prev_kept x (ne_of_has x node zs h out) (has-back x ys zs h));
          apart = λ x h. is.apart x (has-tail x node ys h);
          head = head;
          reverse_tail = rw (is.reverse_tail, not-first node zs is.fresh.2 out) refl;
          reverse_head = rw (is.reverse_head, not-last node zs is.fresh.2 out) refl;
          small = small_front node (ys ++ zs) is.small;
        })

-- The links of the node are null afterwards.
pub unlink_node-clears :
    (q : Mpsciq) (node : ℕ)
    → ((unlink_node q node).next node ≡ 0) × ((unlink_node q node).prev node ≡ 0)
unfolding unlink_node
unlink_node-clears q node = (ground arith, ground arith)
