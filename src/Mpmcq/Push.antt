-- ===== src/Mpmcq/Push.antt =====
-- The queue of prs/lib/ds/mpmcq.c as a list of values: what a push makes of it.
use prs.Base.{
  ℕ, suc, ◌+◌, ◌%◌, ◌^◌, ◌<◌, ◌≤◌, ◌≡◌, ◌≢◌, refl, ap, subst, sym, ◌∙◌, Bool, true, false, Option,
  none, some, List, [], ◌∷◌, ◌++◌, ◌==◌, test_self, arith,
}
use prs.Base.Partial.{◌>>=◌}
use prs.Base.Result.{ok}
use prs.Pd
use prs.Pd.{Pd}
use prs.Pd.Alloc.{IsSized, get_entry-mod, alloc_and_lock-takes}
use prs.Pd.Refs.{can_take-count}
use prs.Mpmcq.{Mpmcq, LockedNode, lock, set_node, alloc_node, push, push_node, push_loop, push_new}
use prs.Mpmcq.Count.{
  counted, Counted, Counted-Holds, counted-Counted, lock_lem, lock-invalid, unlock_lem,
  counted_back,
}
use prs.Mpmcq.Cells.{Cell, At, Apart, first_id, last_id, Linked, Off, Apart-Off, Linked-Off}
use prs.Mpmcq.Extend.{
  last_cell, last_consumed, last_id_lem, last_id-append, last-At, extended, Linked-extended,
  live-append,
}
use prs.Mpmcq.Values.{Values, live}

-- There is room for a node in memory, and in the directory, at the first index that can be taken.
pub record Room (q : Mpmcq) (k node id : ℕ) : Type 0 where
  pub sized : IsSized k q.pd
  pub small : q.pd.write_index + 2 ^ k < 2 ^ 64
  pub after : q.pd.write_index ≤ id
  pub before : id < q.pd.write_index + 2 ^ k
  pub takes : Pd.can_take q.pd id ≡ true
  pub busy : (m : ℕ) → q.pd.write_index ≤ m → m < id → Pd.can_take q.pd m ≡ false
  pub valid : id < 2 ^ 52
  pub some_node : node ≢ 0
  pub fresh : q.nodes node ≡ none

-- The queue with the node, which is not linked yet.
with_node : (q : Mpmcq) {k node id : ℕ} → Room q k node id → (value : ℕ) → Mpmcq
with_node q {k} {node} {id} room value =
    set_node (record q { pd = Pd.Alloc.taken room.sized id node }) node
      (some (record { next = Pd.id_invalid; consumed = false; value = value }))

alloc_node-takes :
    (q : Mpmcq) {k node id : ℕ} (room : Room q k node id) (value : ℕ)
    → alloc_node q node value ≡ (with_node q room value, record { node = some node; id = id })
unfolding alloc_node with_node
alloc_node-takes q {k} {node} {id} room value =
    let test : (node == 0) ≡ false = ground (arith, room.some_node) in
    rw
      (
        test,
        alloc_and_lock-takes room.sized room.small id node room.after room.before room.takes
            room.busy,
      )
      refl

-- The new entry is none of the entries of the queue, and the new node none of its nodes.
At-Apart :
    (q : Mpmcq) {k node id : ℕ} (room : Room q k node id) (consumed : Bool) (c : Cell) (next : ℕ)
    → At q consumed c next
    → (Pd.get_entry q.pd id ≢ Pd.get_entry q.pd c.id) × (node ≢ c.node)
At-Apart q {k} {node} {id} room consumed c next at = (
  λ e. ground (arith, room.takes, can_take-count (Counted-Holds at.counted) id e),
  λ e. ground (arith, room.fresh, at.node, e),
)

Linked-Apart :
    (q : Mpmcq) {k node id : ℕ} (room : Room q k node id) (value : ℕ) (consumed : Bool)
    (cs : List Cell)
    → Linked q consumed cs
    → Apart q.pd (record { id = id; node = node; value = value }) cs
Linked-Apart q room value consumed [] linked = tt
Linked-Apart q room value consumed (c ∷ cs) (at, _, rest) =
    let away = At-Apart q room consumed c (first_id cs) at in
    (away.0, away.1, Linked-Apart q room value false cs rest)

with_node-Off :
    (q : Mpmcq) {k node id : ℕ} (room : Room q k node id) (value : ℕ)
    → Off q (with_node q room value) (record { id = id; node = node; value = value })
unfolding with_node Pd.get_entry
with_node-Off q {k} {node} {id} room value = record {
  entry = λ i. refl;
  header = λ j away. ground (arith, away, get_entry-mod room.sized id);
  ptr = λ j away. ground (arith, away, get_entry-mod room.sized id);
  nodes = λ a away. ground (arith, away);
}

with_node-At :
    (q : Mpmcq) {k node id : ℕ} (room : Room q k node id) (value : ℕ)
    → At
        (with_node q room value)
        false
        (record { id = id; node = node; value = value })
        Pd.id_invalid
unfolding with_node Pd.get_entry
with_node-At q {k} {node} {id} room value = record {
  counted = record {
    valid = room.valid;
    few = omega arith;
    header = rw (get_entry-mod room.sized id, test_self (id % 2 ^ k)) (ground (arith, room.valid));
  };
  ptr = rw (get_entry-mod room.sized id, test_self (id % 2 ^ k)) refl;
  node = rw (test_self node) refl;
}

-- A round at the last node, which the tail names.
push_loop-last :
    (q : Mpmcq) (consumed : Bool) (c : Cell) (id fuel : ℕ)
    → At q consumed c Pd.id_invalid
    → q.tail ≡ c.id
    → push_loop
        (suc fuel)
        (record q { pd = counted q.pd c.id 2 })
        (record { node = some c.node; id = c.id })
        id
      ≡ some (extended q consumed c id)
unfolding push_loop push_node
push_loop-last q consumed c id fuel at tail =
    let q1 : Mpmcq = record q { pd = counted q.pd c.id 2 } in
    let q2 : Mpmcq =
      set_node q1 c.node (some (record { next = id; consumed = consumed; value = c.value })) in
    let twice : Counted q1.pd c.id 2 = counted-Counted 2 at.counted (omega arith) in
    rw
      (
        at.node,
        lock-invalid q1,
        unlock_lem q2 c.node c.id 1 twice,
        counted_back 2 at.counted,
        tail,
        test_self c.id,
      )
      refl

-- A round with no node.
push_loop-none :
    (q : Mpmcq) (id fuel : ℕ)
    → q.tail ≡ Pd.id_invalid
    → push_loop (suc fuel) q (record { node = none; id = Pd.id_invalid }) id
      ≡ some (record q { tail = id; head = id })
unfolding push_loop
push_loop-none q id fuel tail =
    let test : (q.tail == Pd.id_invalid) ≡ true = ap (λ i. i == Pd.id_invalid) tail in rw test refl

-- What a push does: it succeeds and leaves values.
pub record Pushes (q : Mpmcq) (fuel node value : ℕ) (vs : List ℕ) : Type 0 where
  pub left : Mpmcq
  pub pushes : push fuel q node value ≡ some (left, ok)
  pub leaves : Values left vs

-- A push with room, up to its loop.
push-room :
    (q : Mpmcq) {k node id : ℕ} (room : Room q k node id) (value fuel : ℕ) (locked : Mpmcq)
    (tail : LockedNode) (left : Mpmcq)
    → lock (with_node q room value) (with_node q room value).tail ≡ (locked, tail)
    → push_loop fuel locked tail id ≡ some left
    → push fuel q node value ≡ some (left, ok)
unfolding push push_new
push-room q {node} {id} room value fuel locked tail left locks loops =
    ap (push_new fuel) (alloc_node-takes q room value)
    ∙ ap (λ (x : Mpmcq × LockedNode). push_loop fuel x.0 x.1 id >>= λ (q1 : Mpmcq). some (q1, ok))
        locks
    ∙ ap (λ (o : Option Mpmcq). o >>= λ (q1 : Mpmcq). some (q1, ok)) loops

Pushes-cells :
    (q : Mpmcq) {k node id : ℕ} (room : Room q k node id) (value fuel : ℕ) (consumed : Bool)
    (cs : List Cell)
    → Linked q consumed cs
    → q.head ≡ first_id cs
    → q.tail ≡ last_id cs
    → Pushes q (suc fuel) node value (live consumed cs ++ value ∷ [])
unfolding with_node
Pushes-cells q {k} {node} {id} room value fuel consumed [] linked head tail =
    let x : Cell = record { id = id; node = node; value = value } in
    let q1 = with_node q room value in
    let at = with_node-At q room value in
    record {
      left = record q1 { tail = id; head = id };
      pushes =
          push-room q room value (suc fuel) q1 (record { node = none; id = Pd.id_invalid }) _
            (ap (lock q1) tail ∙ lock-invalid q1) (push_loop-none q1 id fuel tail);
      leaves = record {
        consumed = false;
        cells = x ∷ [];
        linked = (record { counted = at.counted; ptr = at.ptr; node = at.node }, tt, tt);
        head = refl;
        tail = refl;
        same = refl;
      };
    }
Pushes-cells q {k} {node} {id} room value fuel consumed (c ∷ cs) linked head tail =
    let x : Cell = record { id = id; node = node; value = value } in
    let q1 = with_node q room value in
    let last = last_cell c cs in
    let apart = Linked-Apart q room value consumed (c ∷ cs) linked in
    let linked1 = Linked-Off consumed (c ∷ cs) (with_node-Off q room value) apart linked in
    let at = last-At q1 consumed c cs linked1 in
    let at_tail : q1.tail ≡ last.id = tail ∙ last_id_lem c cs in
    record {
      left = extended q1 (last_consumed consumed cs) last id;
      pushes =
          push-room q room value (suc fuel) (record q1 { pd = counted q1.pd last.id 2 })
            (record { node = some last.node; id = last.id }) _
            (ap (lock q1) at_tail ∙ lock_lem q1 last.id 0 last.node at.counted (omega arith) at.ptr)
            (push_loop-last q1 (last_consumed consumed cs) last id fuel at at_tail);
      leaves = record {
        consumed = consumed;
        cells = c ∷ cs ++ x ∷ [];
        linked =
            Linked-extended q1 consumed c cs x linked1
              (Apart-Off x (c ∷ cs) (with_node-Off q room value) apart) (with_node-At q room value);
        head = head;
        tail = sym (last_id-append c cs x);
        same = sym (live-append consumed c cs x);
      };
    }

-- A push of `value` on a queue that holds the values `vs`, where there is memory for a node and room in
-- the directory, returns `PRS_OK`, and the queue holds `vs` with the value behind them. One round of
-- the loop is enough.
pub push-Pushes :
    (q : Mpmcq) (vs : List ℕ) {k node id : ℕ} (value fuel : ℕ)
    → Room q k node id
    → Values q vs
    → Pushes q (suc fuel) node value (vs ++ value ∷ [])
push-Pushes q vs {node} value fuel room h =
    subst (λ l. Pushes q (suc fuel) node value (l ++ value ∷ [])) (sym h.same)
      (Pushes-cells q room value fuel h.consumed h.cells h.linked h.head h.tail)
