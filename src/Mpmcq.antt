-- ===== src/Mpmcq.antt =====
-- prs/lib/ds/mpmcq.c: the queue that many workers push to and pop from, on which the semaphores keep the
-- tasks that wait. The nodes are found by their IDs in a pointer directory, and counted there. A node is
-- named by its address. Functions run without interference. `none` stands for the use of a node that is
-- freed, for an assertion that fails, and for a loop that has not ended when its fuel is used up.
pub mod Count
pub mod Cells
pub mod Pop
pub mod Values
pub mod Extend
pub mod Push
pub mod Drain
mod Tests
use prs.Base.{
  ℕ, zero, suc, Bool, true, false, not, ◌&&◌, Option, none, some, ◌==◌, if◌then◌else◌, update,
}
use prs.Base.Partial.{◌>>=◌}
use prs.Base.Result.{Result, ok, unknown, out_of_memory, empty}
use prs.Sched.{is_ok}
use prs.Pd
use prs.Pd.{Pd}

pub record Node : Type 0 where
  pub next : ℕ
  pub consumed : Bool
  pub value : ℕ

-- With the nodes that are allocated, by address.
pub record Mpmcq : Type 0 where
  pub pd : Pd
  pub owns_pd : Bool
  pub head : ℕ
  pub tail : ℕ
  pub nodes : ℕ → Option Node

pub record LockedNode : Type 0 where
  pub node : Option ℕ
  pub id : ℕ

abbrev pub set_node : Mpmcq → (node : ℕ) → Option Node → Mpmcq
set_node q node n = record q { nodes = update q.nodes node n }

abbrev pub allocated : Mpmcq → (node value : ℕ) → Pd × Result × ℕ → Mpmcq × LockedNode
allocated q node value (pd, result, id) =
    if is_ok result
    then (
      set_node (record q { pd = pd }) node
          (some (record { next = Pd.id_invalid; consumed = false; value = value })),
      record { node = some node; id = id },
    )
    else (record q { pd = pd }, record { node = none; id = id })

-- `node` is what `malloc` returns. Where there is no memory, the ID is not set.
unfoldable pub alloc_node : Mpmcq → (node value : ℕ) → Mpmcq × LockedNode
alloc_node q node value =
    if node == 0
    then (q, record { node = none; id = 0 })
    else allocated q node value (Pd.alloc_and_lock q.pd node)

unfoldable pub lock : Mpmcq → (id : ℕ) → Mpmcq × LockedNode
lock q id =
    let (pd, node) = Pd.lock q.pd id in
    if id == Pd.id_invalid
    then (q, record { node = none; id = id })
    else (record q { pd = pd }, record { node = node; id = id })

unfoldable pub unlock : Mpmcq → (node id : ℕ) → Mpmcq
unlock q node id =
    let (pd, must_free) = Pd.unlock q.pd id in
    record q { pd = pd; nodes = if must_free then update q.nodes node none else q.nodes }

-- `given` is the directory of the parameters, and `made` what `prs_pd_create` returns where none is given.
unfoldable pub create :
    (area memory : Bool) → (given made : Option Pd) → (nodes : ℕ → Option Node) → Option Mpmcq
create area memory given made nodes =
    let new : Bool → Pd → Mpmcq = λ owns pd. record {
      pd = pd;
      owns_pd = owns;
      head = Pd.id_invalid;
      tail = Pd.id_invalid;
      nodes = nodes;
    } in
    let with_pd : Option Mpmcq = elim given [
      | some pd ↦ some (new false pd)
      | none ↦ made >>= λ pd. some (new true pd)
    ] in
    if area then with_pd else (if memory then with_pd else none)

-- The compare-and-exchange of the tail.
abbrev pub move_tail : Mpmcq → (tail_id id : ℕ) → Mpmcq
move_tail q tail_id id = if q.tail == tail_id then record q { tail = id } else q

-- A round of `prs_mpmcq_push` at a node in this state, from where the next one is locked.
unfoldable pub push_node :
    (continue : Mpmcq → LockedNode → Option Mpmcq)
    → (node id : ℕ) → Node
    → (new_id : ℕ) → Mpmcq × LockedNode
    → Option Mpmcq
push_node continue node id n new_id (q, next) = elim next.node [
  | some _ ↦ continue (unlock (move_tail q id next.id) node id) next
  | none ↦
      let linked = set_node q node (some (record n { next = new_id })) in
      some (move_tail (unlock linked node id) id new_id)
]

-- The loop of `prs_mpmcq_push`.
unfoldable pub push_loop : ℕ → Mpmcq → (tail : LockedNode) → (new_id : ℕ) → Option Mpmcq
push_loop zero q tail new_id = none
push_loop (suc fuel) q tail new_id = elim tail.node [
  | none ↦
      let again = lock q q.tail in
      let rest = push_loop fuel again.0 again.1 new_id in
      if q.tail == tail.id then some (record q { tail = new_id; head = new_id }) else rest
  | some t ↦ q.nodes t >>= λ n.
      push_node (λ q1 next. push_loop fuel q1 next new_id) t tail.id n new_id (lock q n.next)
]

-- `prs_mpmcq_push` behind the allocation.
unfoldable pub push_new : ℕ → Mpmcq × LockedNode → Option (Mpmcq × Result)
push_new fuel (q, new) =
    let tail = lock q q.tail in
    let pushed = push_loop fuel tail.0 tail.1 new.id >>= λ left. some (left, ok) in
    elim new.node [ none ↦ some (q, out_of_memory) | some _ ↦ pushed ]

unfoldable pub push : ℕ → Mpmcq → (node value : ℕ) → Option (Mpmcq × Result)
push fuel q node value = push_new fuel (alloc_node q node value)

-- What a pop leaves: the queue, the result, and the value that was found.
abbrev pub Popped : Type 0
Popped = Option (Mpmcq × Result × Option ℕ)

-- The end of a pop, with the node unlocked.
abbrev pub pop_end : Mpmcq → (node id : ℕ) → Node → Popped
pop_end q node id n =
    some (
      unlock q node id,
      if n.consumed then empty else ok,
      if n.consumed then none else some n.value,
    )

-- The head moves from this node to the next one.
abbrev pub move_head : Mpmcq → (node id next : ℕ) → Mpmcq
move_head q node id next = if q.head == id then unlock (record q { head = next }) node id else q

-- A round of `prs_mpmcq_pop` at a node that was in this state, from where the next one is locked.
unfoldable pub pop_node :
    (continue : Mpmcq → LockedNode → Popped) → (node id : ℕ) → Node → Mpmcq × LockedNode → Popped
pop_node continue node id n (q, next) = elim next.node [
  | none ↦ pop_end q node id n
  | some a ↦
      let q1 = move_head q node id next.id in
      if n.consumed
      then continue (unlock q1 node id) next
      else pop_end (unlock q1 a next.id) node id n
]

-- The loop of `prs_mpmcq_pop`.
unfoldable pub pop_loop : ℕ → Mpmcq → (test : LockedNode) → Popped
pop_loop zero q test = none
pop_loop (suc fuel) q test = elim test.node [
  | none ↦
      let again = lock q q.head in
      let rest = pop_loop fuel again.0 again.1 in
      if not (again.1.id == test.id)
      then rest
      else elim again.1.node [ none ↦ some (again.0, unknown, none) | some _ ↦ none ]
  | some t ↦ q.nodes t >>= λ n.
      let marked = set_node q t (some (record n { consumed = true })) in
      pop_node (pop_loop fuel) t test.id n (lock marked n.next)
]

unfoldable pub pop : ℕ → Mpmcq → Popped
pop fuel q = let (q1, test) = lock q q.head in pop_loop fuel q1 test

-- The pops of `prs_mpmcq_destroy`, which end at the first one that finds nothing.
unfoldable pub drain : (pops fuel : ℕ) → Mpmcq → Option Mpmcq
drain zero fuel q = none
drain (suc pops) fuel q = pop fuel q >>= λ (q1, result, value).
    let rest = drain pops fuel q1 in if is_ok result then rest else some q1

-- With the number of blocks that `prs_mpmcq_destroy` frees itself.
unfoldable pub destroy : (pops fuel : ℕ) → Mpmcq → Option (Mpmcq × ℕ)
destroy pops fuel q = drain pops fuel q >>= λ left. some (left, if left.owns_pd then 2 else 1)
