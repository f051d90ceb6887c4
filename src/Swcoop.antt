-- ===== src/Swcoop.antt =====
-- prs/sched/swcoop.c: the cooperative scheduler, one ready queue and one worker. A task is its
-- address, 0 is null, and its state is the token of prs/task.c. The queues are held by their content,
-- the oldest task first, as Mpsciq.Content shows. The operations run one at a time. `none`
-- stands for an assertion that fails.
pub mod Laws
pub mod Purge
mod Tests
use prs.Base.{
  ℕ, Bool, true, false, not, ◌&&◌, Option, none, some, List, [], ◌∷◌, ◌++◌, ◌==◌, if◌then◌else◌,
  update,
}
use prs.Base.Result.{Result, ok, out_of_memory}
use prs.Chain.Seg.{has, without}
use prs.Task.{Task, stopped, ready, running, zombie, get_state, change_state}

pub record Swcoop : Type 0 where
  pub readyq : List ℕ
  pub removeq : List ℕ
  pub tasks : ℕ → Task
  pub attached : ℕ → Bool

unfoldable pub set_state : Swcoop → (task expected new : ℕ) → Option Swcoop
set_state s task expected new = elim (change_state (s.tasks task) expected new) [
  | none ↦ none
  | some t ↦ some (record s { tasks = update s.tasks task t })
]

-- A round of the loop over the remove queue, for a task other than the current one.
unfoldable pub purge_task : Swcoop → ℕ → Option Swcoop
purge_task s task =
    let s' = record s { readyq = if has task s.readyq then without task s.readyq else s.readyq } in
    elim (set_state s' task stopped zombie) [
      | none ↦ none
      | some r ↦ some (record r { attached = update r.attached task false })
    ]

-- The loop over the remove queue: `false` where the current task is to be removed.
unfoldable pub purge : List ℕ → Swcoop → (current_task : ℕ) → Option (Swcoop × Bool)
purge [] s current_task = some (record s { removeq = [] }, true)
purge (task ∷ q) s current_task =
    let step : Option (Swcoop × Bool) = elim (purge_task s task) [
      | none ↦ none
      | some s' ↦ purge q s' current_task
    ] in
    if current_task == task then some (record s { removeq = task ∷ q }, false) else step

unfoldable pub is_running : Swcoop → ℕ → Bool
is_running s task = get_state (s.tasks task) == running

-- The oldest ready task, if there is one.
unfoldable pub take : Swcoop → List ℕ → Option (Swcoop × Bool × ℕ)
take s [] = some (s, true, 0)
take s (node ∷ q) =
    elim (set_state (record s { readyq = without node (node ∷ q) }) node ready running) [
      | none ↦ none
      | some r ↦ some (r, true, node)
    ]

unfoldable pub next_of_purged : (current_task : ℕ) → Swcoop × Bool → Option (Swcoop × Bool × ℕ)
next_of_purged current_task (s, false) = some (s, false, 0)
next_of_purged current_task (s, true) =
    if not (current_task == 0) && is_running s current_task
    then some (s, true, current_task)
    else take s s.readyq

-- The result of `prs_sched_swcoop_get_next` and the task that it stores.
unfoldable pub get_next : Swcoop → (current_task : ℕ) → Option (Swcoop × Bool × ℕ)
get_next s current_task = elim (purge s.removeq s current_task) [
  | none ↦ none
  | some p ↦ next_of_purged current_task p
]

-- `worker` is the scheduler's worker, which is signalled, and `signal` the result of
-- `prs_worker_signal` for it.
unfoldable pub ready_task : (signal : ℕ → Result) → Swcoop → (worker task : ℕ) → Swcoop × Result
ready_task signal s worker task = (record s { readyq = s.readyq ++ task ∷ [] }, signal worker)

-- `memory` says whether `prs_pal_malloc_zero` gives memory for the task's user data.
unfoldable pub add :
    (memory : Bool) → (signal : ℕ → Result) → Swcoop → (worker task : ℕ) → Option (Swcoop × Result)
add memory signal s worker task =
    if memory
    then elim (set_state (record s { attached = update s.attached task true }) task stopped ready) [
      | none ↦ none
      | some r ↦ some (ready_task signal r worker task)
    ]
    else some (s, out_of_memory)

-- The task goes to the remove queue; the worker that runs it is interrupted, 0 stands for none.
unfoldable pub remove : Swcoop → (worker current_task task : ℕ) → Option (Swcoop × Result × ℕ)
remove s worker current_task task =
    let prev_state = get_state (s.tasks task) in
    if prev_state == stopped then some (s, ok, 0) else elim (set_state s task prev_state stopped) [
      | none ↦ none
      | some r ↦ some (
        record r { removeq = r.removeq ++ task ∷ [] },
        ok,
        if (prev_state == running) && (current_task == task) then worker else 0,
      )
    ]
