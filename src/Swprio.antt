-- ===== src/Swprio.antt =====
-- prs/sched/swprio.c: the scheduler by priority. A task is its address, 0 is null. The queues are
-- held by their content, the oldest task first, as Mpsciq.Content shows; the mask is held by
-- its bits. The operations run one at a time, so a queue that was found empty is still empty when it
-- is looked at again. `none` stands for an assertion that fails.
pub mod Queue
pub mod Laws
pub mod Preempt
pub mod Ready
mod Tests
use prs.Base.{
  ℕ, zero, suc, ◌+◌, Bool, true, false, not, ◌&&◌, ◌||◌, Option, none, some, List, [], ◌∷◌, ◌++◌,
  ◌==◌, ltb, if◌then◌else◌, update,
}
use prs.Base.Result.{Result, ok, out_of_memory}
use prs.Chain.Seg.{has, without}
use prs.Task.{Task, stopped, ready, running, zombie, get_state, change_state}

-- A task as the scheduler sees it: `attached` says that it has a `sched_userdata`.
pub record Entry : Type 0 where
  pub task : Task
  pub prio : ℕ
  pub attached : Bool

pub record Swprio : Type 0 where
  pub ready_mask : ℕ → Bool
  pub readyq : ℕ → List ℕ
  pub removeq : List ℕ
  pub tasks : ℕ → Entry

abbrev pub max_task_prio : ℕ
max_task_prio = 32

unfoldable pub set_state : Swprio → (task expected new : ℕ) → Option Swprio
set_state s task expected new = elim (change_state (s.tasks task).task expected new) [
  | none ↦ none
  | some t ↦ some (record s { tasks = update s.tasks task (record (s.tasks task) { task = t }) })
]

abbrev pub is_empty : List ℕ → Bool
is_empty [] = true
is_empty (_ ∷ _) = false

-- A queue that loses a task, with its bit of the mask.
unfoldable pub dequeue : Swprio → (prio task : ℕ) → Swprio
dequeue s prio task =
    let q = without task (s.readyq prio) in
    record s {
      readyq = update s.readyq prio q;
      ready_mask = if is_empty q then update s.ready_mask prio false else s.ready_mask;
    }

unfoldable pub enqueue : Swprio → (prio task : ℕ) → Swprio
enqueue s prio task = record s {
  readyq = update s.readyq prio (s.readyq prio ++ task ∷ []);
  ready_mask = update s.ready_mask prio true;
}

unfoldable pub detach : Swprio → (task : ℕ) → Swprio
detach s task = record s {
  tasks = update s.tasks task (record (s.tasks task) { attached = false });
}

-- A round of the loop over the remove queue, for a task other than the current one.
unfoldable pub purge_task : Swprio → ℕ → Option Swprio
purge_task s task =
    let prio = (s.tasks task).prio in
    let s' = if has task (s.readyq prio) then dequeue s prio task else s in
    elim (set_state s' task stopped zombie) [ none ↦ none | some r ↦ some (detach r task) ]

-- The loop over the remove queue: `false` where the current task is to be removed.
unfoldable pub purge : List ℕ → Swprio → (current_task : ℕ) → Option (Swprio × Bool)
purge [] s current_task = some (record s { removeq = [] }, true)
purge (task ∷ q) s current_task =
    let step : Option (Swprio × Bool) = elim (purge_task s task) [
      | none ↦ none
      | some s' ↦ purge q s' current_task
    ] in
    if current_task == task then some (record s { removeq = task ∷ q }, false) else step

-- The loop over the mask, a priority a round: `mask` is the mask that was loaded, whose bits below
-- `prio` are clear by now. It clears the bits of empty queues up to the first queue that holds a
-- task, and answers its priority and its oldest task.
unfoldable pub pick : ℕ → Swprio → (mask : ℕ → Bool) → (prio : ℕ) → Swprio × Option (ℕ × ℕ)
pick zero s mask prio = (s, none)
pick (suc rounds) s mask prio =
    let next = pick rounds s mask (prio + 1) in
    let cleared =
      pick rounds (record s { ready_mask = update s.ready_mask prio false }) mask (prio + 1) in
    if mask prio
    then elim (s.readyq prio) [ [] ↦ cleared | node ∷ _ ↦ (s, some (prio, node)) ]
    else next

-- The node that was found leaves its queue and its task runs.
unfoldable pub take : Swprio → (prio node : ℕ) → Option (Swprio × Bool × ℕ)
take s prio node =
    elim (set_state (record s { readyq = update s.readyq prio (without node (s.readyq prio)) }) node
      ready running) [ none ↦ none | some r ↦ some (r, true, node) ]

unfoldable pub is_running : Swprio → ℕ → Bool
is_running s task = get_state (s.tasks task).task == running

-- The current task goes back to its queue.
unfoldable pub preempt : Swprio → (current_task prio node : ℕ) → Option (Swprio × Bool × ℕ)
preempt s current_task prio node =
    elim (set_state (enqueue s (s.tasks current_task).prio current_task) current_task running
      ready) [ none ↦ none | some r ↦ take r prio node ]

-- What follows the loop over the mask.
unfoldable pub choose : Swprio → (current_task : ℕ) → Option (ℕ × ℕ) → Option (Swprio × Bool × ℕ)
choose s current_task none =
    if not (current_task == 0) && is_running s current_task
    then some (s, true, current_task)
    else some (s, true, 0)
choose s current_task (some (next_prio, node)) =
    if not (current_task == 0) && is_running s current_task
    then (if ltb next_prio (s.tasks current_task).prio
        then preempt s current_task next_prio node
        else some (s, true, current_task))
    else take s next_prio node

unfoldable pub next_of_purged : (current_task : ℕ) → Swprio × Bool → Option (Swprio × Bool × ℕ)
next_of_purged current_task (s, false) = some (s, false, 0)
next_of_purged current_task (s, true) =
    let (s', found) = pick max_task_prio s s.ready_mask 0 in choose s' current_task found

-- The result of `prs_sched_swprio_get_next` and the task that it stores.
unfoldable pub get_next : Swprio → (current_task : ℕ) → Option (Swprio × Bool × ℕ)
get_next s current_task = elim (purge s.removeq s current_task) [
  | none ↦ none
  | some p ↦ next_of_purged current_task p
]

-- A worker and its current task, 0 where it has none or `prs_god_lock` finds none.
pub record Worker : Type 0 where
  pub worker : ℕ
  pub current_task : ℕ

-- The loop of `prs_sched_swprio_ready` over the workers.
unfoldable pub lowest : (ℕ → Entry) → List Worker → (lowest_worker lowest_prio : ℕ) → ℕ × ℕ
lowest tasks [] lowest_worker lowest_prio = (lowest_worker, lowest_prio)
lowest tasks (w ∷ ws) lowest_worker lowest_prio =
    let idle = w.current_task == 0 in
    let prio = if idle then max_task_prio else (tasks w.current_task).prio in
    let taken = lowest tasks ws w.worker prio in
    let passed = lowest tasks ws lowest_worker lowest_prio in
    if idle || ltb lowest_prio (tasks w.current_task).prio then taken else passed

-- With the worker that is interrupted, 0 for none.
unfoldable pub ready_task : Swprio → List Worker → (task : ℕ) → Swprio × Result × ℕ
ready_task s workers task =
    let prio = (s.tasks task).prio in
    let (lowest_worker, lowest_prio) = lowest s.tasks workers 0 0 in
    (
      enqueue s prio task,
      ok,
      if not (lowest_worker == 0) && ltb prio lowest_prio then lowest_worker else 0,
    )

unfoldable pub attach : Swprio → ℕ → Swprio
attach s task = record s { tasks = update s.tasks task (record (s.tasks task) { attached = true }) }

-- `memory` says whether `prs_pal_malloc_zero` gives memory for the task's user data.
unfoldable pub add :
    (memory : Bool) → Swprio → List Worker → (task : ℕ) → Option (Swprio × Result × ℕ)
add memory s workers task =
    if memory
    then elim (set_state (attach s task) task stopped ready) [
      | none ↦ none
      | some r ↦ some (ready_task r workers task)
    ]
    else some (s, out_of_memory, 0)

-- The loop of `prs_sched_swprio_remove` over the workers.
unfoldable pub worker_of : List Worker → (task : ℕ) → ℕ
worker_of [] task = 0
worker_of (w ∷ ws) task =
    let rest = worker_of ws task in if w.current_task == task then w.worker else rest

unfoldable pub remove : Swprio → List Worker → (task : ℕ) → Option (Swprio × Result × ℕ)
remove s workers task =
    let prev_state = get_state (s.tasks task).task in
    if prev_state == stopped then some (s, ok, 0) else elim (set_state s task prev_state stopped) [
      | none ↦ none
      | some r ↦ some (
        record r { removeq = r.removeq ++ task ∷ [] },
        ok,
        if prev_state == running then worker_of workers task else 0,
      )
    ]
