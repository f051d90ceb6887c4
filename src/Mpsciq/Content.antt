-- ===== src/Mpsciq/Content.antt =====
-- The queue of prs/lib/ds/mpsciq.c as a list of nodes, the oldest one first: what the schedulers use.
use prs.Base.{
  ℕ, suc, ◌≢◌, ◌+◌, ◌-◌, ◌^◌, ◌<◌, ◌≡◌, refl, ◌∙◌, sym, ap, subst, eq_of_test, test_self,
  Bool-cases, inl, inr, Bool, true, false, ◌||◌, some, List, [], ◌∷◌, ◌++◌, arith, ◌==◌, length,
  length-append,
}
use prs.Chain.Seg.{has, without, first_or, last_or, has-append, first-append, Seg-back, Seg-ne_zero}
use prs.Mpsciq.{Mpsciq, push, remove, begin}
use prs.Mpsciq.Queue.{Holds}
use prs.Mpsciq.Laws.{IsFree, push-Holds, begin-oldest, remove-any}

abbrev pub oldest_first : List ℕ → List ℕ
oldest_first [] = []
oldest_first (x ∷ xs) = oldest_first xs ++ x ∷ []

append_assoc : (xs ys zs : List ℕ) → (xs ++ ys) ++ zs ≡ xs ++ (ys ++ zs)
append_assoc [] ys zs = refl
append_assoc (x ∷ xs) ys zs = ap (λ l. x ∷ l) (append_assoc xs ys zs)

append_nil : (xs : List ℕ) → xs ++ [] ≡ xs
append_nil [] = refl
append_nil (x ∷ xs) = ap (λ l. x ∷ l) (append_nil xs)

oldest_first-append :
    (xs ys : List ℕ) → oldest_first (xs ++ ys) ≡ oldest_first ys ++ oldest_first xs
oldest_first-append [] ys = sym (append_nil (oldest_first ys))
oldest_first-append (x ∷ xs) ys =
    ap (λ l. l ++ x ∷ []) (oldest_first-append xs ys)
    ∙ append_assoc (oldest_first ys) (oldest_first xs) (x ∷ [])

has-oldest_first : (a : ℕ) (xs : List ℕ) → has a (oldest_first xs) ≡ has a xs
has-oldest_first a [] = refl
has-oldest_first a (x ∷ xs) =
    has-append a (oldest_first xs) (x ∷ []) ∙ rw (has-oldest_first a xs) (swap (has a xs) (a == x))
  where
    swap : (p q : Bool) → (p || (q || false)) ≡ (q || p)
    swap p q = ground arith

first-oldest_first : (xs : List ℕ) (b : ℕ) → first_or b (oldest_first xs) ≡ last_or b xs
first-oldest_first [] b = refl
first-oldest_first (x ∷ xs) b = first-append b (oldest_first xs) (x ∷ []) ∙ first-oldest_first xs x

without-append : (x : ℕ) (xs ys : List ℕ) → has x xs ≡ false → without x (xs ++ x ∷ ys) ≡ xs ++ ys
without-append x [] ys out = rw (test_self x) refl
without-append x (y ∷ xs) ys out =
    let ne : (x == y) ≡ false = ground arith in
    rw ne (ap (λ l. y ∷ l) (without-append x xs ys (ground arith)))

split_at :
    (a : ℕ) (xs : List ℕ) → has a xs ≡ true → (ys : List ℕ) × (zs : List ℕ) × (xs ≡ ys ++ a ∷ zs)
split_at a [] h = absurd (ground arith)
split_at a (x ∷ xs) h = elim (Bool-cases (a == x)) [
  | inl e ↦ ([], xs, ap (λ y. y ∷ xs) (sym (eq_of_test a x e)))
  | inr e ↦ let (ys, zs, p) = split_at a xs (ground arith) in (x ∷ ys, zs, ap (λ l. x ∷ l) p)
]

-- The queue holds the nodes of the list, the oldest one first.
pub record Content (q : Mpsciq) (c : List ℕ) : Type 0 where
  pub nodes : List ℕ
  pub holds : Holds q nodes
  pub order : c ≡ oldest_first nodes

length-oldest_first : (xs : List ℕ) → length (oldest_first xs) ≡ length xs
length-oldest_first [] = refl
length-oldest_first (x ∷ xs) =
    omega (arith, length-append (oldest_first xs) (x ∷ []), length-oldest_first xs)

removed_content :
    (ys zs : List ℕ) (node : ℕ)
    → has node zs ≡ false
    → oldest_first (ys ++ zs) ≡ without node (oldest_first (ys ++ node ∷ zs))
removed_content ys zs node out =
    oldest_first-append ys zs
    ∙ sym (without-append node (oldest_first zs) (oldest_first ys) (has-oldest_first node zs ∙ out))
    ∙ ap (without node) (
        sym (append_assoc (oldest_first zs) (node ∷ []) (oldest_first ys))
        ∙ sym (oldest_first-append ys (node ∷ zs)))

module _ (q : Mpsciq) (c : List ℕ) (content : Content q c) where
  short : (fuel : ℕ) → length c < fuel → length content.nodes < fuel
  short fuel enough =
      omega (arith, ap length content.order, length-oldest_first content.nodes, enough)

  pub content-ne_zero : (node : ℕ) → has node c ≡ true → node ≢ 0
  content-ne_zero node inside =
      let (_, _, is) =
        begin-oldest q content.nodes (suc (length content.nodes)) content.holds (omega arith) in
      Seg-ne_zero _ _ content.nodes 0 0 node is.linked
        (sym (has-oldest_first node content.nodes) ∙ ap (has node) (sym content.order) ∙ inside)

  -- `prs_mpsciq_push` of a node that is in no queue, its links null, puts it behind all others.
  pub push-Content :
      (node : ℕ)
      → IsFree q c node
      → length c + 1 < 2 ^ 64 - 1
      → Content (push q node) (c ++ node ∷ [])
  push-Content node free room = record {
    nodes = node ∷ content.nodes;
    holds =
        push-Holds q content.nodes node content.holds
          (record {
            some_node = free.some_node;
            outside =
                sym (has-oldest_first node content.nodes)
                ∙ ap (has node) (sym content.order)
                ∙ free.outside;
            next = free.next;
            prev = free.prev;
          })
          (omega (arith, ap length content.order, length-oldest_first content.nodes, room));
    order = ap (λ l. l ++ node ∷ []) content.order;
  }

  -- `prs_mpsciq_begin` ends, given more rounds than the queue has nodes, and answers the first node of
  -- the queue, or null if it is empty; the queue holds what it held.
  pub begin-Content :
      (fuel : ℕ)
      → length c < fuel
      → (r : Mpsciq) × (begin fuel q ≡ some (r, first_or 0 c)) × Content r c
  begin-Content fuel enough =
      let (r, run, is) = begin-oldest q content.nodes fuel content.holds (short fuel enough) in
      let first = sym (first-oldest_first content.nodes 0) ∙ ap (first_or 0) (sym content.order) in
      (
        r,
        run ∙ ap (λ a. some (r, a)) first,
        record {
          nodes = content.nodes;
          holds = record { ys = []; zs = content.nodes; parts = refl; is = is };
          order = content.order;
        },
      )

  -- `prs_mpsciq_remove` ends, given more rounds than the queue has nodes, takes the node out of the
  -- queue wherever it is, keeps the order of the others, and leaves the links of the node null.
  pub remove-Content :
      (fuel node : ℕ)
      → length c < fuel
      → has node c ≡ true
      → (r : Mpsciq) × (remove fuel q node ≡ some r)
        × Content r (without node c)
        × (r.next node ≡ 0)
        × (r.prev node ≡ 0)
  remove-Content fuel node enough inside =
      let inside' =
        sym (has-oldest_first node content.nodes) ∙ ap (has node) (sym content.order) ∙ inside in
      let (ys, zs, parts) = split_at node content.nodes inside' in
      let holds = subst (Holds q) parts content.holds in
      let enough' = subst (λ l. length l < fuel) parts (short fuel enough) in
      let (_, _, is) = begin-oldest q (ys ++ node ∷ zs) fuel holds enough' in
      let out = (Seg-back _ _ ys (node ∷ zs) 0 0 is.linked).3 in
      let (r, run, holds', next, prev) = remove-any q ys zs node fuel holds enough' in
      (
        r,
        run,
        record {
          nodes = ys ++ zs;
          holds = holds';
          order =
              ap (without node) (content.order ∙ ap oldest_first parts)
              ∙ sym (removed_content ys zs node out);
        },
        next,
        prev,
      )
