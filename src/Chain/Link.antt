-- ===== src/Chain/Link.antt =====
-- Linking a node in and out of a list, against insertion into and removal from the list of nodes.
use prs.Base.{
  ℕ, ◌+◌, ◌-◌, ◌^◌, ◌<◌, ◌≡◌, ◌≢◌, refl, ◌∙◌, true, false, List, [], ◌∷◌, ◌++◌, arith, ◌==◌,
  if◌then◌else◌, length, length-append,
}
use prs.Chain.{Chain, link_between, prev_of, link, unlink_between, unlink}
use prs.Chain.Seg.{
  has, first_or, last_or, Seg, Apart, has-last, has-append, last-append, ne-last, Seg-append,
  Seg-front, ne_of_has, not-last, not-first, Apart-sym, Seg-ne_zero, Seg-back, Seg-Apart, Seg-end,
  Seg-start,
}

-- The list holds the nodes `xs`, in order.
pub record IsChain (c : Chain) (xs : List ℕ) : Type 0 where
  pub seg : Seg c.next c.prev 0 0 xs
  pub head : c.head ≡ first_or 0 xs
  pub tail : c.tail ≡ last_or 0 xs
  pub size : c.size ≡ length xs
  pub small : length xs < 2 ^ 64 - 1

-- The last node of a run is null only where the run is empty.
last-ne :
    (next prev : ℕ → ℕ) (b a x : ℕ) (xs : List ℕ) → Seg next prev b a (x ∷ xs) → last_or x xs ≢ 0
last-ne next prev b a x [] s = s.2
last-ne next prev b a x (y ∷ xs) s = last-ne next prev x a y xs s.4

-- The tests on `head` and `tail` when a node comes between `ys` and `zs`.
head-link :
    (ys zs : List ℕ) (node : ℕ)
    → Apart ys zs
    → ((x : ℕ) → has x ys ≡ true → x ≢ 0)
    → (if first_or 0 zs == first_or 0 (ys ++ zs) then node else first_or 0 (ys ++ zs))
      ≡ first_or 0 (ys ++ node ∷ zs)
head-link [] zs node apart ne = ground arith
head-link (y ∷ ys) zs node apart ne =
    let mine : has y (y ∷ ys) ≡ true = ground arith in
    ground (arith, not-first y zs (ne y mine) (apart y mine))

tail-link :
    (ys zs : List ℕ) (node : ℕ)
    → Apart zs ys
    → ((x : ℕ) → has x zs ≡ true → x ≢ 0)
    → (if last_or 0 ys == last_or (last_or 0 ys) zs then node else last_or (last_or 0 ys) zs)
      ≡ last_or node zs
tail-link ys [] node apart ne = ground arith
tail-link ys (z ∷ zs) node apart ne =
    let mine = has-last z zs in
    ground (arith, not-last (last_or z zs) ys (ne (last_or z zs) mine) (apart (last_or z zs) mine))

-- The tests when the node between them goes.
head-unlink :
    (ys zs : List ℕ) (node : ℕ)
    → Apart ys (node ∷ zs)
    → (if node == first_or 0 (ys ++ node ∷ zs) then first_or 0 zs else first_or 0 (ys ++ node ∷ zs))
      ≡ first_or 0 (ys ++ zs)
head-unlink [] zs node apart = ground arith
head-unlink (y ∷ ys) zs node apart =
    let mine : has y (y ∷ ys) ≡ true = ground arith in ground (arith, apart y mine)

tail-unlink :
    (b : ℕ) (zs : List ℕ) (node : ℕ)
    → has node zs ≡ false
    → (if node == last_or node zs then b else last_or node zs) ≡ last_or b zs
tail-unlink b [] node out = ground arith
tail-unlink b (z ∷ zs) node out = ground (arith, ne-last node z zs out)

module _ {c : Chain} (ys zs : List ℕ) where
  -- What the code computes as `prev`.
  prev_of-last : IsChain c (ys ++ zs) → prev_of c (first_or 0 zs) ≡ last_or 0 ys
  unfolding prev_of
  prev_of-last is = go zs is
    where
      go :
          (zs : List ℕ)
          → IsChain c (ys ++ zs)
          → (if first_or 0 zs == 0 then c.tail else c.prev (first_or 0 zs)) ≡ last_or 0 ys
      go [] is = is.tail ∙ last-append 0 ys []
      go (z ∷ zs) is =
          let s = Seg-back c.next c.prev ys (z ∷ zs) 0 0 is.seg in ground (arith, s.0, s.2)

  module _ (node : ℕ) (is : IsChain c (ys ++ zs)) (fresh : has node (ys ++ zs) ≡ false)
      (some_node : node ≢ 0) where
    abbrev c' : Chain
    unfolding link_between
    c' = link_between c (first_or 0 zs) (last_or 0 ys) node

    out : (has node ys ≡ false) × (has node zs ≡ false)
    out = ground (arith, has-append node ys zs, fresh)

    apart : Apart ys zs
    apart = Seg-Apart c.next c.prev ys zs 0 0 is.seg

    s : Seg c.next c.prev 0 (first_or 0 zs) ys
    s = Seg-front c.next c.prev ys zs 0 0 is.seg

    t : Seg c.next c.prev (last_or 0 ys) 0 zs
    t = Seg-back c.next c.prev ys zs 0 0 is.seg

    front : Seg c'.next c'.prev 0 node ys
    unfolding link_between
    front =
        Seg-end c.next c.prev c'.next c'.prev node ys 0 (first_or 0 zs) s
          (λ x h. ground (
            arith,
            ne_of_has x node ys h out.0,
            Seg-ne_zero c.next c.prev ys 0 (first_or 0 zs) x s h,
          ))
          (λ x h.
            let ne = Seg-ne_zero c.next c.prev ys 0 (first_or 0 zs) x s h in
            ground (arith, ne_of_has x node ys h out.0, not-first x zs ne (apart x h)))

    back : Seg c'.next c'.prev node 0 zs
    unfolding link_between
    back =
        Seg-start c.next c.prev c'.next c'.prev node zs (last_or 0 ys) 0 t
          (λ x h.
            let ne = Seg-ne_zero c.next c.prev zs (last_or 0 ys) 0 x t h in
            ground
              (arith, ne_of_has x node zs h out.1, not-last x ys ne (Apart-sym ys zs apart x h)))
          (λ x h. ground (
            arith,
            ne_of_has x node zs h out.1,
            Seg-ne_zero c.next c.prev zs (last_or 0 ys) 0 x t h,
          ))

    middle : (c'.prev node ≡ last_or 0 ys) × (c'.next node ≡ first_or 0 zs)
    unfolding link_between
    middle = (
      ground (arith, not-first node zs some_node out.1),
      ground (arith, not-last node ys some_node out.0),
    )

    whole : Seg c'.next c'.prev 0 0 (ys ++ node ∷ zs)
    whole =
        Seg-append c'.next c'.prev ys (node ∷ zs) 0 0 front
          (middle.0, middle.1, some_node, out.1, back)
          (λ x h. ground (arith, ne_of_has x node ys h out.0, apart x h))

    link_between-IsChain : length (ys ++ zs) + 1 < 2 ^ 64 - 1 → IsChain c' (ys ++ node ∷ zs)
    unfolding link_between
    link_between-IsChain room = record {
      seg = whole;
      head = head;
      tail = tail;
      size = size;
      small = omega (arith, length-append ys zs, length-append ys (node ∷ zs), room);
    }
      where
        head : c'.head ≡ first_or 0 (ys ++ node ∷ zs)
        head = rw is.head (
            head-link ys zs node apart
              (λ x h. Seg-ne_zero c.next c.prev ys 0 (first_or 0 zs) x s h))

        tail : c'.tail ≡ last_or 0 (ys ++ node ∷ zs)
        tail =
            rw (is.tail, last-append 0 ys zs, last-append 0 ys (node ∷ zs))
              (tail-link ys zs node (Apart-sym ys zs apart)
                (λ x h. Seg-ne_zero c.next c.prev zs (last_or 0 ys) 0 x t h))

        size : c'.size ≡ length (ys ++ node ∷ zs)
        size = rw is.size (omega (arith, length-append ys zs, length-append ys (node ∷ zs), room))

  -- Linking a node in before the first node of `zs`, or before null where `zs` is empty, inserts it
  -- there into the list of nodes.
  pub link-IsChain :
      (node : ℕ)
      → IsChain c (ys ++ zs)
      → has node (ys ++ zs) ≡ false
      → node ≢ 0
      → length (ys ++ zs) + 1 < 2 ^ 64 - 1
      → IsChain (link c (first_or 0 zs) node) (ys ++ node ∷ zs)
  unfolding link link_between
  link-IsChain node is fresh some_node room =
      rw (prev_of-last is) (link_between-IsChain node is fresh some_node room)

  module _ (node : ℕ) (is : IsChain c (ys ++ node ∷ zs)) where
    abbrev u : Chain
    unfolding unlink_between
    u = unlink_between c (first_or 0 zs) (last_or 0 ys) node

    Apart-node : Apart ys (node ∷ zs)
    Apart-node = Seg-Apart c.next c.prev ys (node ∷ zs) 0 0 is.seg

    before : Seg c.next c.prev 0 node ys
    before = Seg-front c.next c.prev ys (node ∷ zs) 0 0 is.seg

    from_node : Seg c.next c.prev (last_or 0 ys) 0 (node ∷ zs)
    from_node = Seg-back c.next c.prev ys (node ∷ zs) 0 0 is.seg

    closed : Seg u.next u.prev 0 0 (ys ++ zs)
    unfolding unlink_between
    closed =
        Seg-append u.next u.prev ys zs 0 0
          (Seg-end c.next c.prev u.next u.prev (first_or 0 zs) ys 0 node before
            (λ x h. ground (arith, Seg-ne_zero c.next c.prev ys 0 node x before h))
            (λ x h.
              let ne = Seg-ne_zero c.next c.prev ys 0 node x before h in
              ground (arith, not-first x zs ne (ground (arith, Apart-node x h)))))
          (Seg-start c.next c.prev u.next u.prev (last_or 0 ys) zs node 0 from_node.4
            (λ x h.
              let ne = Seg-ne_zero c.next c.prev zs node 0 x from_node.4 h in
              ground
                (arith, not-last x ys ne (Apart-sym ys (node ∷ zs) Apart-node x (ground arith))))
            (λ x h. ground (arith, Seg-ne_zero c.next c.prev zs node 0 x from_node.4 h)))
          (λ x h. ground (arith, Apart-node x h))

    -- Unlinking a node removes it from the list of nodes.
    pub unlink-IsChain : IsChain (unlink c node) (ys ++ zs)
    unfolding unlink unlink_between
    unlink-IsChain =
        rw (from_node.0, from_node.1)
          (record {
            seg = closed;
            head = rw is.head (head-unlink ys zs node Apart-node);
            tail =
                rw (is.tail, last-append 0 ys (node ∷ zs), last-append 0 ys zs)
                  (tail-unlink (last_or 0 ys) zs node from_node.3);
            size =
                rw is.size
                  (omega (arith, length-append ys zs, length-append ys (node ∷ zs), is.small));
            small = omega (arith, length-append ys zs, length-append ys (node ∷ zs), is.small);
          })

    -- The node is then in the list no more.
    pub unlink-gone : has node (ys ++ zs) ≡ false
    unlink-gone =
        rw
          (
            has-append node ys zs,
            from_node.3,
            Apart-sym ys (node ∷ zs) Apart-node node (ground arith),
          )
          refl
