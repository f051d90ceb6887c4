-- ===== src/Mpsciq/Laws.antt =====
-- The operations of the queue of prs/lib/ds/mpsciq.c, against the list of its nodes, newest first.
use prs.Base.{
  ℕ, suc, ◌+◌, ◌-◌, ◌^◌, ◌<◌, ◌≡◌, ◌≢◌, refl, ◌∙◌, sym, ap, subst, Bool, true, false, ◌||◌, none,
  some, List, [], ◌∷◌, ◌++◌, arith, ◌==◌, length, length-append,
}
use prs.Chain.{search_from}
use prs.Chain.Seg.{
  has, first_or, last_or, Seg, has-first, has-back, ne_of_has, first-append, Seg-back,
}
use prs.Mpsciq.{
  Mpsciq, create, build_reverse, push, unlink_node, remove, begin, rbegin, end_of, next_of, prev_of,
  is_inserted,
}
use prs.Mpsciq.Queue.{IsQueue, Holds, push-IsQueue}
use prs.Mpsciq.Reverse.{build_reverse-Built}
use prs.Mpsciq.Remove.{linked-IsChain, unlink-linked, unlink-newest, unlink_node-clears}

-- A node outside the queue whose links are null.
pub record IsFree (q : Mpsciq) (xs : List ℕ) (node : ℕ) : Type 0 where
  pub some_node : node ≢ 0
  pub outside : has node xs ≡ false
  pub next : q.next node ≡ 0
  pub prev : q.prev node ≡ 0

-- The search along the `prev` links, from the oldest node on.
module _ (next prev : ℕ → ℕ) where
  visit :
      (fuel node x : ℕ)
      → x ≢ 0
      → search_from (suc fuel) prev node x ≡ ((node == x) || search_from fuel prev node (prev x))
  unfolding search_from
  visit fuel node x ne = ground arith

  search_from-prev :
      (node : ℕ) (xs : List ℕ) (fuel b a : ℕ)
      → Seg next prev b a xs
      → search_from (length xs + fuel) prev node (last_or b xs)
        ≡ (has node xs || search_from fuel prev node b)
  search_from-prev node [] fuel b a s = ap (λ n. search_from n prev node b) (omega arith)
  search_from-prev node (x ∷ xs) fuel b a s =
      ap (λ n. search_from n prev node (last_or x xs)) (omega arith)
      ∙ search_from-prev node xs (suc fuel) x a s.4
      ∙ ap (λ t. has node xs || t) (visit fuel node x s.2)
      ∙ rw s.0 (swap (has node xs) (node == x) (search_from fuel prev node b))
    where
      swap : (p q r : Bool) → (p || (q || r)) ≡ ((q || p) || r)
      swap p q r = ground arith

stop : (n node : ℕ) (prev : ℕ → ℕ) → search_from (suc n) prev node 0 ≡ false
unfolding search_from
stop n node prev = refl

module _ (q : Mpsciq) where
  -- `prs_mpsciq_push` puts a node that is in no queue, its links null, in front of the others as the
  -- newest one.
  pub push-Holds :
      (xs : List ℕ) (node : ℕ)
      → Holds q xs
      → IsFree q xs node
      → length xs + 1 < 2 ^ 64 - 1
      → Holds (push q node) (node ∷ xs)
  push-Holds xs node holds free room =
      let out : has node (holds.ys ++ holds.zs) ≡ false = rw (sym holds.parts) free.outside in
      record {
        ys = node ∷ holds.ys;
        zs = holds.zs;
        parts = ap (λ l. node ∷ l) holds.parts;
        is =
            push-IsQueue q holds.ys holds.zs node holds.is free.some_node out free.next free.prev
              (omega (arith, ap length holds.parts, room));
      }

  begin_lem :
      (fuel : ℕ) {r : Mpsciq}
      → build_reverse fuel q q.head ≡ some r
      → begin fuel q ≡ some (r, r.reverse_head)
  unfolding begin
  begin_lem fuel e = rw (begin, e) refl

  link_all :
      (xs : List ℕ) (fuel : ℕ)
      → Holds q xs
      → length xs < fuel
      → (r : Mpsciq) × (build_reverse fuel q q.head ≡ some r)
        × IsQueue r [] xs
        × (q.head ≡ first_or 0 xs)
  link_all xs fuel holds enough =
      let short : length holds.ys < fuel =
        omega (arith, ap length holds.parts, length-append holds.ys holds.zs, enough) in
      let (r, e, built) = build_reverse-Built fuel q holds.ys holds.zs holds.is short in
      let is = subst (IsQueue r []) (sym holds.parts) built.is in
      (r, e, is, sym built.head ∙ is.head)

  -- `prs_mpsciq_begin` ends, given more rounds than the queue has nodes, links all nodes in both
  -- directions and answers the oldest one, or null if the queue is empty.
  pub begin-oldest :
      (xs : List ℕ) (fuel : ℕ)
      → Holds q xs
      → length xs < fuel
      → (r : Mpsciq) × (begin fuel q ≡ some (r, last_or 0 xs)) × IsQueue r [] xs
  begin-oldest xs fuel holds enough =
      let (r, e, is, _) = link_all xs fuel holds enough in
      (r, begin_lem fuel e ∙ ap (λ a. some (r, a)) is.reverse_head, is)

  remove_head :
      (fuel node : ℕ)
      → node ≡ q.head
      → remove fuel q node ≡ some (unlink_node (record q { head = q.next node }) node)
  unfolding remove
  remove_head fuel node e = rw (test_eq node q.head e) refl
    where
      test_eq : (a b : ℕ) → a ≡ b → (a == b) ≡ true
      test_eq a b e = ground arith

  remove_inner :
      (fuel node : ℕ) {r : Mpsciq}
      → (node == q.head) ≡ false
      → build_reverse fuel q q.head ≡ some r
      → remove fuel q node ≡ some (unlink_node r node)
  unfolding remove
  remove_inner fuel node ne e = rw (ne, e) refl

  -- What `prs_mpsciq_remove` leaves of the nodes `xs` when it ends.
  abbrev pub Removed : (fuel node : ℕ) → List ℕ → Type 0
  Removed fuel node xs =
      (r : Mpsciq) × (remove fuel q node ≡ some r)
      × Holds r xs
      × (r.next node ≡ 0)
      × (r.prev node ≡ 0)

  removed :
      (fuel node : ℕ) (r : Mpsciq) (xs ys zs : List ℕ)
      → remove fuel q node ≡ some (unlink_node r node)
      → xs ≡ ys ++ zs
      → IsQueue (unlink_node r node) ys zs
      → Removed fuel node xs
  removed fuel node r xs ys zs e parts is = (
    unlink_node r node,
    e,
    record { ys = ys; zs = zs; parts = parts; is = is },
    (unlink_node-clears r node).0,
    (unlink_node-clears r node).1,
  )

  remove-newest :
      (fuel node : ℕ) (xs ys zs : List ℕ)
      → node ∷ xs ≡ ys ++ zs
      → IsQueue q ys zs
      → Removed fuel node xs
  remove-newest fuel node xs [] zs parts is =
      let is' : IsQueue q [] (node ∷ xs) = subst (IsQueue q []) (sym parts) is in
      removed fuel node (record q { head = q.next node }) xs [] xs
        (remove_head fuel node (sym is'.head)) refl
        (unlink-linked q node [] xs (length (node ∷ xs)) (linked-IsChain q (node ∷ xs) is')
          (q.next node) is'.linked.1)
  remove-newest fuel node xs (y ∷ ys) zs parts is =
      let is' = subst (λ y. IsQueue q (y ∷ ys) zs) (sym (ap (first_or 0) parts)) is in
      removed fuel node (record q { head = q.next node }) xs ys zs
        (remove_head fuel node (sym is'.head)) (ap behind parts)
        (unlink-newest q node ys zs is' (q.next node) is'.fresh.1)
    where
      behind : List ℕ → List ℕ
      behind [] = []
      behind (x ∷ xs) = xs

  -- `prs_mpsciq_remove` ends, given more rounds than the queue has nodes, removes the node from
  -- wherever it is in the queue, keeps the order of the others, and leaves its links null.
  pub remove-any :
      (ys zs : List ℕ) (node fuel : ℕ)
      → Holds q (ys ++ node ∷ zs)
      → length (ys ++ node ∷ zs) < fuel
      → (r : Mpsciq) × (remove fuel q node ≡ some r)
        × Holds r (ys ++ zs)
        × (r.next node ≡ 0)
        × (r.prev node ≡ 0)
  remove-any [] zs node fuel holds enough =
      remove-newest fuel node zs holds.ys holds.zs holds.parts holds.is
  remove-any (y ∷ ys) zs node fuel holds enough =
      let (r, e, is, head) = link_all (y ∷ (ys ++ node ∷ zs)) fuel holds enough in
      let c = linked-IsChain r (y ∷ (ys ++ node ∷ zs)) is in
      let inside = has-back node ys (node ∷ zs) (has-first node zs) in
      let ne = ne_of_has node y (ys ++ node ∷ zs) inside is.linked.3 in
      removed fuel node r (y ∷ (ys ++ zs)) [] (y ∷ (ys ++ zs))
        (remove_inner fuel node (rw head ne) e) refl
        (unlink-linked r node (y ∷ ys) zs (length (y ∷ (ys ++ node ∷ zs))) c r.head is.head)

  inserted_lem :
      (fuel node : ℕ) {r : Mpsciq} {first : ℕ}
      → begin fuel q ≡ some (r, first)
      → is_inserted fuel q node ≡ some (r, search_from fuel r.prev node first)
  unfolding is_inserted
  inserted_lem fuel node e = rw (is_inserted, e) refl

  -- `prs_mpsciq_is_inserted` ends, given more rounds than the queue has nodes, and answers whether
  -- the node is one of the queue's.
  pub is_inserted-has :
      (xs : List ℕ) (fuel node : ℕ)
      → Holds q xs
      → length xs < fuel
      → (r : Mpsciq) × (is_inserted fuel q node ≡ some (r, has node xs)) × IsQueue r [] xs
  is_inserted-has xs fuel node holds enough =
      let (r, e, is) = begin-oldest xs fuel holds enough in
      (r, inserted_lem fuel node e ∙ ap (λ a. some (r, a)) (found r is), is)
    where
      or_false : (b : Bool) → (b || false) ≡ b
      or_false b = ground arith

      found :
          (r : Mpsciq) → IsQueue r [] xs → search_from fuel r.prev node (last_or 0 xs) ≡ has node xs
      found r is =
          ap (λ n. search_from n r.prev node (last_or 0 xs)) (omega (arith, enough))
          ∙ search_from-prev r.next r.prev node xs (suc (fuel - length xs - 1)) 0 0 is.linked
          ∙ rw (stop (fuel - length xs - 1) node r.prev) (or_false (has node xs))

  -- After `prs_mpsciq_begin` the queue reads from its oldest node to its newest: the node that
  -- `prs_mpsciq_next` answers is the one that was pushed next, and `prs_mpsciq_prev` leads back.
  pub order :
      (ys zs : List ℕ) (node : ℕ)
      → IsQueue q [] (ys ++ node ∷ zs)
      → (rbegin q ≡ first_or node ys)
        × (next_of q node ≡ last_or (end_of q) ys)
        × (prev_of q node ≡ first_or (end_of q) zs)
  unfolding rbegin next_of prev_of end_of
  order ys zs node is =
      let s = Seg-back q.next q.prev ys (node ∷ zs) 0 0 is.linked in
      (is.head ∙ first-append 0 ys (node ∷ zs), s.0, s.1)

-- `prs_mpsciq_create` returns null exactly if there is no memory, and else an empty queue.
pub create-Holds :
    (node_offset : ℕ) (next prev : ℕ → ℕ)
    → (create false node_offset next prev ≡ none)
      × ((q : Mpsciq) × (create true node_offset next prev ≡ some q) × Holds q [])
unfolding create
create-Holds node_offset next prev = (
  refl,
  (
    _,
    refl,
    record {
      ys = [];
      zs = [];
      parts = refl;
      is = record {
        fresh = tt;
        linked = tt;
        apart = λ z h. absurd (ground arith);
        head = refl;
        reverse_tail = refl;
        reverse_head = refl;
        small = omega arith;
      };
    },
  ),
)
