-- ===== src/Event.antt =====
-- prs/event.c: the events that tasks block on. The world holds the tasks that `prs_god_lock` finds
-- by ID, the events that are allocated, by address, the current task, and the tasks handed to
-- `prs_sched_ready`, the last one first. A reference to a task that is taken and dropped leaves no
-- trace. `none` stands for an assertion that fails, a fatal error, and the use of an event that is
-- freed.
pub mod Laws
mod Tests
use prs.Base.{
  ℕ, ◌+◌, ◌-◌, Bool, true, false, Option, none, some, List, [], ◌∷◌, bit_or, ◌==◌, leb, ltb,
  if◌then◌else◌, sub_word, update,
}
use prs.Task.{Task, block, unblock}

pub record Event : Type 0 where
  pub task_id : ℕ
  pub token : ℕ
  pub initial_refcnt : ℕ
  pub refcnt : ℕ

pub record World : Type 0 where
  pub tasks : ℕ → Option Task
  pub events : ℕ → Option Event
  pub current : ℕ
  pub readied : List ℕ

abbrev pub state_signaled : ℕ
state_signaled = 1

abbrev pub state_freed : ℕ
state_freed = 2

-- The rest of `prs_event_create` once the task is blocked.
unfoldable pub new_event : World → (event task_id refcnt : ℕ) → Task × ℕ → World
new_event w event task_id refcnt (task, token) = record w {
  tasks = update w.tasks task_id (some task);
  events = update w.events event (
      some (record { task_id = task_id; token = token; initial_refcnt = refcnt; refcnt = refcnt }));
}

-- `event` is what `malloc` returns, and `task` the task with the ID `task_id`.
unfoldable pub create :
    World → (event : ℕ) → (task_id : ℕ) → (task : Task) → (refcnt : ℕ) → Option World
create w event task_id task refcnt =
    if event == 0
    then none
    else elim (block task) [ none ↦ none | some b ↦ some (new_event w event task_id refcnt b) ]

unfoldable pub destroy : World → ℕ → World
destroy w event = record w { events = update w.events event none }

-- The reference that goes, with `PRS_EVENT_STATE_FREED` for the last one.
unfoldable pub drop_ref : World → ℕ → Event → World × ℕ
unfolding destroy
drop_ref w event e = if e.refcnt == 1 then (destroy w event, state_freed) else (
  record w { events = update w.events event (some (record e { refcnt = sub_word e.refcnt 1 })) },
  0,
)

-- The signal to a task that was found.
unfoldable pub unblock_in : World → (task_id token type : ℕ) → Task → World × Bool
unblock_in w task_id token type task =
    let (task', success, to_ready) = unblock (task_id == w.current) task token type in
    (
      record w {
        tasks = update w.tasks task_id (some task');
        readied = if to_ready then task_id ∷ w.readied else w.readied;
      },
      success,
    )

-- `success` of `prs_event_unref_internal`.
unfoldable pub signal_task : World → (task_id token type : ℕ) → World × Bool
signal_task w task_id token type = elim (w.tasks task_id) [
  | none ↦ (w, false)
  | some task ↦ unblock_in w task_id token type task
]

unfoldable pub add_signaled : (state : ℕ) → World × Bool → World × ℕ
add_signaled state (w, success) = (w, if success then state else bit_or state state_signaled)

-- What follows the assertions.
unfoldable pub unref_event : World → ℕ → Event → (signal : Bool) → (type : ℕ) → World × ℕ
unref_event w event e signal type =
    let (w', state) = drop_ref w event e in
    if signal then add_signaled state (signal_task w' e.task_id e.token type) else (w', state)

unfoldable pub unref_internal :
    World → (event : ℕ) → (signal : Bool) → (type : ℕ) → Option (World × ℕ)
unref_internal w event signal type = elim (w.events event) [
  | none ↦ none
  | some e ↦
      if ltb 0 e.refcnt
      then (if leb e.refcnt e.initial_refcnt
          then some (unref_event w event e signal type)
          else none)
      else none
]

unfoldable pub signal : World → (event type : ℕ) → Option (World × ℕ)
signal w event type = unref_internal w event true type

unfoldable pub unref : World → ℕ → Option (World × ℕ)
unref w event = unref_internal w event false 0

unfoldable pub cancel : World → ℕ → World
cancel w event = destroy w event
