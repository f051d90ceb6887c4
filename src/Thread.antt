-- ===== src/Thread.antt =====
-- prs/pal/posix/thread.c: the thread of a worker. The semaphore that the thread sleeps on is its value.
-- What the system calls answer are arguments.
pub mod Laws
mod Tests
use prs.Base.{ℕ, ◌+◌, ◌-◌, Bool, true, false, not, ◌&&◌, Option, none, some, ◌==◌, if◌then◌else◌}
use prs.Base.Result.{Result, ok, invalid_state, platform_error}

pub record Thread : Type 0 where
  pub from_current : Bool
  pub started : Bool
  pub exited : Bool
  pub idle_sem : ℕ

-- `memory`, `sem_init`, `sigaction` and `pthread_create` say which of the calls succeed.
unfoldable pub create :
    (memory sem_init sigaction pthread_create : Bool) → (from_current : Bool) → Option Thread
create memory sem_init sigaction pthread_create from_current =
    let pal_thread : Thread = record {
      from_current = from_current;
      started = false;
      exited = false;
      idle_sem = 0;
    } in
    let spawned = if from_current then true else pthread_create in
    if memory && sem_init && sigaction && spawned then some pal_thread else none

-- Whether the thread is freed comes with the result.
unfoldable pub destroy : Thread → Bool × Result
destroy t =
    if t.started
    then (if not t.exited then (false, invalid_state) else (true, ok))
    else (false, invalid_state)

-- One wait that is not interrupted by a signal: `none` while the thread sleeps.
unfoldable pub suspend : Thread → Option Thread
suspend t = if t.idle_sem == 0 then none else some (record t { idle_sem = t.idle_sem - 1 })

unfoldable pub resume : (sem_post : Bool) → Thread → Thread × Result
resume sem_post t =
    if sem_post then (record t { idle_sem = t.idle_sem + 1 }, ok) else (t, platform_error)

-- The rest of `prs_pal_thread_entry` for a thread of its own: it first sleeps until it is started.
unfoldable pub entry : (run : Thread → Thread) → Thread → Option Thread
unfolding suspend
entry run t = elim (suspend t) [
  | none ↦ none
  | some t' ↦ some (record (run (record t' { started = true })) { exited = true })
]

-- The callbacks are arguments of the definitions that call them; that they are stored cannot fail.
unfoldable pub set_callback_params : Thread → Thread × Result
set_callback_params t = (t, ok)

-- `run` is the entry function of the worker.
unfoldable pub start : (run : Thread → Thread) → (sem_post : Bool) → Thread → Thread × Result
unfolding resume
start run sem_post t =
    if t.from_current
    then (record (run (record t { started = true })) { exited = true; started = false }, ok)
    else resume sem_post t

-- `waited` is the thread once it has ended.
unfoldable pub join : (waited : Thread → Thread) → Thread → Thread × Result
join waited t =
    if t.from_current
    then (t, if t.exited then ok else invalid_state)
    else (if not t.exited then (waited t, ok) else (t, ok))

-- `error` is what `pthread_kill` answers, and `esrch` the number of the error.
unfoldable pub interrupt : (esrch error : ℕ) → Result
interrupt esrch error =
    if error == 0 then ok else (if error == esrch then invalid_state else platform_error)
