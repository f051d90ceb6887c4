-- ===== src/Mpmcq/Pop.antt =====
-- Pops of prs/lib/ds/mpmcq.c, from the loop on: the first node is locked.
use mathlib.Core.Path.{ap₂}
use prs.Base.{
  ℕ, suc, ◌≡◌, ◌≢◌, refl, sym, fun_ext, Bool, true, false, none, some, if◌then◌else◌, update,
  test_self, arith,
}
use prs.Base.Result.{ok, empty}
use prs.Pd
use prs.Mpmcq.{Node, Mpmcq, LockedNode, lock, pop_node, pop_loop}
use prs.Mpmcq.Count.{
  counted, Counted, counted-Counted, other-Counted, lock_lem, lock-invalid, unlock_lem,
  counted_back, counted_away, counted_next,
}
use prs.Mpmcq.Cells.{Cell, At}

abbrev pub taken : Mpmcq → Cell → Mpmcq
taken q c = record q { pd = counted q.pd c.id 2 }

abbrev pub test_of : Cell → LockedNode
test_of c = record { node = some c.node; id = c.id }

abbrev pub used_up : Cell → (next : ℕ) → Node
used_up c next = record { next = next; consumed = true; value = c.value }

abbrev marked : Mpmcq → Cell → (next : ℕ) → Mpmcq
marked q c next = record (taken q c) { nodes = update q.nodes c.node (some (used_up c next)) }

update_again {ℓ} :
    {A : Type ℓ} (f : ℕ → A) (i : ℕ) (x y : A) → update (update f i x) i y ≡ update f i y
update_again f i x y = fun_ext λ j. ground arith

-- A round at a node.
pop_loop-node :
    (q : Mpmcq) (c : Cell) (consumed : Bool) (next fuel : ℕ)
    → At q consumed c next
    → pop_loop (suc fuel) (taken q c) (test_of c)
      ≡ pop_node
          (pop_loop fuel)
          c.node
          c.id
          (record { next = next; consumed = consumed; value = c.value })
          (lock (marked q c next) next)
unfolding pop_loop
pop_loop-node q c consumed next fuel at = rw at.node refl

-- The last node of the queue.
pub pop_loop-last :
    (q : Mpmcq) (consumed : Bool) (c : Cell) (fuel : ℕ)
    → At q consumed c Pd.id_invalid
    → pop_loop (suc fuel) (taken q c) (test_of c)
      ≡ some (
        record q { nodes = update q.nodes c.node (some (used_up c Pd.id_invalid)) },
        if consumed then empty else ok,
        if consumed then none else some c.value,
      )
unfolding pop_node
pop_loop-last q consumed c fuel at =
    let q1 = marked q c Pd.id_invalid in
    let twice : Counted q1.pd c.id 2 = counted-Counted 2 at.counted (omega arith) in
    rw
      (
        pop_loop-node q c consumed Pd.id_invalid fuel at,
        lock-invalid q1,
        unlock_lem q1 c.node c.id 1 twice,
        counted_back 2 at.counted,
      )
      refl

-- A node that is not consumed, with another one behind it.
pub pop_loop-first :
    (q : Mpmcq) (c d : Cell) (next fuel : ℕ)
    → At q false c d.id
    → At q false d next
    → Pd.get_entry q.pd c.id ≢ Pd.get_entry q.pd d.id
    → q.head ≡ c.id
    → pop_loop (suc fuel) (taken q c) (test_of c)
      ≡ some (
        record q { pd = counted q.pd c.id 0; head = d.id; nodes = update q.nodes c.node none },
        ok,
        some c.value,
      )
unfolding pop_node Pd.get_entry
pop_loop-first q c d next fuel at behind apart first =
    let behind_apart : Pd.get_entry q.pd d.id ≢ Pd.get_entry q.pd c.id = λ e. apart (sym e) in
    let c2 = counted-Counted 2 at.counted (omega arith) in
    let d1 = other-Counted c.id 2 behind.counted behind_apart in
    let d2 = counted-Counted 2 d1 (omega arith) in
    let c2' = other-Counted d.id 2 c2 apart in
    let c1 = counted-Counted 1 c2' (omega arith) in
    let d2' = other-Counted c.id 1 d2 behind_apart in
    let d1' = counted-Counted 1 d2' (omega arith) in
    let c1' = other-Counted d.id 1 c1 apart in
    let q1 = marked q c d.id in
    let q2 : Mpmcq = record q1 { pd = counted q1.pd d.id 2; head = d.id } in
    let q3 : Mpmcq = record q2 { pd = counted q2.pd c.id 1 } in
    let q4 : Mpmcq = record q3 { pd = counted q3.pd d.id 1 } in
    rw
      (
        pop_loop-node q c false d.id fuel at,
        lock_lem q1 d.id 0 d.node d1 (omega arith) behind.ptr,
        first,
        test_self c.id,
        unlock_lem q2 c.node c.id 1 c2',
        unlock_lem q3 d.node d.id 1 d2',
        unlock_lem q4 c.node c.id 0 c1',
      )
      (ap₂ (λ pd nodes. some (record q { pd = pd; head = d.id; nodes = nodes }, ok, some c.value))
        (counted_away c.id behind.counted apart)
        (update_again q.nodes c.node (some (used_up c d.id)) none))

-- A node that was consumed, with another one behind it, which becomes the first.
pub pop_loop-skips :
    (q : Mpmcq) (c d : Cell) (next fuel : ℕ)
    → At q true c d.id
    → At q false d next
    → Pd.get_entry q.pd c.id ≢ Pd.get_entry q.pd d.id
    → q.head ≡ c.id
    → pop_loop (suc fuel) (taken q c) (test_of c)
      ≡ pop_loop fuel
          (taken
            (record q { pd = counted q.pd c.id 0; head = d.id; nodes = update q.nodes c.node none })
            d)
          (test_of d)
unfolding pop_node Pd.get_entry
pop_loop-skips q c d next fuel at behind apart first =
    let behind_apart : Pd.get_entry q.pd d.id ≢ Pd.get_entry q.pd c.id = λ e. apart (sym e) in
    let c2 = counted-Counted 2 at.counted (omega arith) in
    let d1 = other-Counted c.id 2 behind.counted behind_apart in
    let c2' = other-Counted d.id 2 c2 apart in
    let c1 = counted-Counted 1 c2' (omega arith) in
    let q1 = marked q c d.id in
    let q2 : Mpmcq = record q1 { pd = counted q1.pd d.id 2; head = d.id } in
    let q3 : Mpmcq = record q2 { pd = counted q2.pd c.id 1 } in
    rw
      (
        pop_loop-node q c true d.id fuel at,
        lock_lem q1 d.id 0 d.node d1 (omega arith) behind.ptr,
        first,
        test_self c.id,
        unlock_lem q2 c.node c.id 1 c2',
        unlock_lem q3 c.node c.id 0 c1,
      )
      (ap₂
        (λ pd nodes. pop_loop fuel (record q { pd = pd; head = d.id; nodes = nodes }) (test_of d))
        (counted_next q.pd c.id d.id apart)
        (update_again q.nodes c.node (some (used_up c d.id)) none))
