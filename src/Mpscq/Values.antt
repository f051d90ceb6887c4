-- ===== src/Mpscq/Values.antt =====
-- The queue of prs/lib/ds/mpscq.c as a list of values, the oldest one first.
use prs.Base.{
  ℕ, zero, suc, ◌+◌, ◌-◌, ◌^◌, ◌<◌, ◌≡◌, ◌≢◌, refl, sym, ap, subst, test_self, fun_ext, true, false,
  some, List, [], ◌∷◌, ◌++◌, arith, ◌==◌, update, length,
}
use prs.Base.Result.{ok, out_of_memory}
use prs.Chain.Seg.{has, without, first_or, has-first}
use prs.Mpsciq
use prs.Mpsciq.{Mpsciq}
use prs.Mpsciq.Laws.{IsFree}
use prs.Mpsciq.Content.{Content, push-Content, begin-Content, remove-Content, content-ne_zero}
use prs.Mpscq.{Mpscq, push, remove, begin, destroy, get_data}

-- What the nodes of a list hold.
abbrev pub values : (ℕ → ℕ) → List ℕ → List ℕ
values data_of [] = []
values data_of (node ∷ nodes) = data_of node ∷ values data_of nodes

AllNodes : List ℕ → Type 0
AllNodes nodes = (node : ℕ) → has node nodes ≡ true → node ≢ 0

-- The queue holds these values.
pub record Values (q : Mpscq) (vs : List ℕ) : Type 0 where
  pub nodes : List ℕ
  pub content : Content q.links nodes
  pub same : vs ≡ values q.data_of nodes

length-values : (data_of : ℕ → ℕ) (nodes : List ℕ) → length (values data_of nodes) ≡ length nodes
length-values data_of [] = refl
length-values data_of (node ∷ nodes) = ap suc (length-values data_of nodes)

values-append :
    (data_of : ℕ → ℕ) (xs ys : List ℕ)
    → values data_of (xs ++ ys) ≡ values data_of xs ++ values data_of ys
values-append data_of [] ys = refl
values-append data_of (x ∷ xs) ys = ap (λ l. data_of x ∷ l) (values-append data_of xs ys)

values-outside :
    (data_of : ℕ → ℕ) (node value : ℕ) (nodes : List ℕ)
    → has node nodes ≡ false
    → values (update data_of node value) nodes ≡ values data_of nodes
values-outside data_of node value [] out = refl
values-outside data_of node value (x ∷ xs) out =
    let test : (x == node) ≡ false = ground arith in
    rw test (ap (λ l. data_of x ∷ l) (values-outside data_of node value xs (ground arith)))

short :
    (q : Mpscq) (vs : List ℕ) (fuel : ℕ)
    → (h : Values q vs) → length vs < fuel
    → length h.nodes < fuel
short q vs fuel h enough = omega (arith, ap length h.same, length-values q.data_of h.nodes, enough)

-- On a node whose links are null, the links of a push are those of `prs_mpsciq_push`.
push-links :
    (q : Mpscq) (c : List ℕ) (node value : ℕ)
    → IsFree q.links c node
    → (push q node value).0.links ≡ Mpsciq.push q.links node
unfolding push Mpsciq.push
push-links q c node value free =
    let some_node = free.some_node in
    let test : (node == 0) ≡ false = ground arith in
    rw (test, free.next, free.prev)
      (ap
        (λ p. record q.links {
          next = update q.links.next node q.links.head;
          prev = p;
          head = node;
        })
        (fun_ext λ j. ground (arith, free.prev)))

pushed-values :
    (q : Mpscq) (vs : List ℕ) (h : Values q vs) (node value : ℕ)
    → has node h.nodes ≡ false
    → vs ++ value ∷ [] ≡ values (update q.data_of node value) (h.nodes ++ node ∷ [])
pushed-values q vs h node value out =
    rw
      (
        values-append (update q.data_of node value) h.nodes (node ∷ []),
        values-outside q.data_of node value h.nodes out,
        test_self node,
      )
      (ap (λ l. l ++ value ∷ []) h.same)

-- A push of a value, into a node that `malloc` returns, puts it behind all others; without memory it
-- changes nothing.
pub push-Values :
    (q : Mpscq) (vs : List ℕ) (h : Values q vs) (node value : ℕ)
    → IsFree q.links h.nodes node
    → length vs + 1 < 2 ^ 64 - 1
    → Values (push q node value).0 (vs ++ value ∷ [])
      × ((push q node value).1 ≡ ok)
      × (push q 0 value ≡ (q, out_of_memory))
unfolding push
push-Values q vs h node value free room =
    let some_node = free.some_node in
    let test : (node == 0) ≡ false = ground arith in
    let small : length h.nodes + 1 < 2 ^ 64 - 1 =
      omega (arith, ap length h.same, length-values q.data_of h.nodes, room) in
    (
      record {
        nodes = h.nodes ++ node ∷ [];
        content =
            subst (λ links. Content links (h.nodes ++ node ∷ []))
              (sym (push-links q h.nodes node value free))
              (push-Content q.links h.nodes h.content node free small);
        same = rw test (pushed-values q vs h node value free.outside);
      },
      rw test refl,
      refl,
    )

abbrev others : List ℕ → List ℕ
others [] = []
others (x ∷ xs) = xs

take_oldest :
    (q : Mpscq) (nodes : List ℕ) (v : ℕ) (vs : List ℕ) (fuel : ℕ)
    → Content q.links nodes
    → v ∷ vs ≡ values q.data_of nodes
    → length nodes < fuel
    → (r : Mpscq) × (s : Mpscq) × (node : ℕ) × (begin fuel q ≡ some (r, node))
      × (node ≢ 0)
      × (get_data r node ≡ v)
      × (remove fuel r node ≡ some s)
      × Values s vs
unfolding begin remove get_data
take_oldest q [] v vs fuel content same enough = absurd (omega (arith, ap length same))
take_oldest q (x ∷ xs) v vs fuel content same enough =
    let inside : has x (x ∷ xs) ≡ true = has-first x xs in
    let (links, run, held) = begin-Content q.links (x ∷ xs) content fuel enough in
    let (links', run', held', _, _) = remove-Content links (x ∷ xs) held fuel x enough inside in
    let gone : without x (x ∷ xs) ≡ xs = rw (test_self x) refl in
    (
      record q { links = links },
      record q { links = links' },
      x,
      rw run refl,
      content-ne_zero q.links (x ∷ xs) content x inside,
      ap (first_or 0) (sym same),
      rw run' refl,
      record { nodes = xs; content = subst (Content links') gone held'; same = ap others same },
    )

-- `prs_mpscq_begin`, `prs_mpscq_get_data` and `prs_mpscq_remove`, given more rounds than the queue has
-- values, end and take the oldest value out of the queue, and keep the others in their order.
pub begin-Values :
    (q : Mpscq) (v : ℕ) (vs : List ℕ) (fuel : ℕ)
    → Values q (v ∷ vs)
    → length (v ∷ vs) < fuel
    → (r : Mpscq) × (s : Mpscq) × (node : ℕ) × (begin fuel q ≡ some (r, node))
      × (node ≢ 0)
      × (get_data r node ≡ v)
      × (remove fuel r node ≡ some s)
      × Values s vs
begin-Values q v vs fuel h enough =
    take_oldest q h.nodes v vs fuel h.content h.same (short q (v ∷ vs) fuel h enough)

no_values : (data_of : ℕ → ℕ) (nodes : List ℕ) → [] ≡ values data_of nodes → first_or 0 nodes ≡ 0
no_values data_of [] same = refl
no_values data_of (x ∷ xs) same = absurd (omega (arith, ap length same))

begin-empty :
    (q : Mpscq) (fuel : ℕ)
    → Values q []
    → 0 < fuel
    → (r : Mpscq) × (begin fuel q ≡ some (r, 0)) × Values r []
unfolding begin
begin-empty q fuel h enough =
    let (links, run, held) =
      begin-Content q.links h.nodes h.content fuel (short q [] fuel h enough) in
    (
      record q { links = links },
      rw (run, no_values q.data_of h.nodes h.same) refl,
      record { nodes = h.nodes; content = held; same = h.same },
    )

-- `prs_mpscq_destroy` ends: with more rounds, and more fuel in each, than the queue has values, it frees
-- every node, and leaves an empty queue.
pub destroy-Values :
    (rounds fuel : ℕ) (q : Mpscq) (vs : List ℕ)
    → Values q vs
    → length vs < rounds
    → length vs < fuel
    → (r : Mpscq) × (destroy rounds fuel q ≡ some r) × Values r []
unfolding destroy
destroy-Values zero fuel q vs h more enough = absurd (omega arith)
destroy-Values (suc rounds) fuel q [] h more enough =
    let (r, run, left) = begin-empty q fuel h enough in (r, rw run refl, left)
destroy-Values (suc rounds) fuel q (v ∷ vs) h more enough =
    let (r, s, node, begun, some_node, _, removed, left) = begin-Values q v vs fuel h enough in
    let (t, run, done) = destroy-Values rounds fuel s vs left (omega arith) (omega arith) in
    let test : (node == 0) ≡ false = ground arith in (t, rw (begun, test, removed) run, done)
