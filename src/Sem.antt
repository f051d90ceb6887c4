-- ===== src/Sem.antt =====
-- prs/sem.c: the semaphore. `waitq` is the content of its queue, the next event to pop first;
-- `count` is a signed word in two's complement. The operations run one at a time up to where they
-- call the scheduler. `none` stands for an assertion that fails or a fatal error of prs/event.c, and
-- for the task that is killed when its event cannot be queued.
pub mod Signal
pub mod Wait
mod Tests
use prs.Base.{
  ℕ, ◌+◌, ◌^◌, Bool, true, false, not, ◌&&◌, Option, none, some, List, [], ◌∷◌, ◌++◌, bit_and, ◌==◌,
  leb, ltb, if◌then◌else◌, word, sub_word,
}
use prs.Base.Result.{Result, ok, timeout}
use prs.Task.{Task}
use prs.Event.{World, state_signaled, state_freed, create, signal as signal_event, cancel}

pub record Sem : Type 0 where
  pub max_count : ℕ
  pub count : ℕ
  pub waitq : List ℕ

abbrev pub event_type_signal : ℕ
event_type_signal = 1

abbrev pub event_type_timeout : ℕ
event_type_timeout = 2

-- `value > 0` and `value < 0` of a `prs_int_t`.
abbrev pub is_positive : ℕ → Bool
is_positive value = ltb 0 value && ltb value (2 ^ 63)

abbrev pub is_negative : ℕ → Bool
is_negative value = leb (2 ^ 63) value

-- What `prs_sem_signal_once` leaves for the event that took the signal.
unfoldable pub taken : (self_event pop_event : ℕ) → World × ℕ → List ℕ → World × List ℕ × Bool
taken self_event pop_event (w, event_state) q =
    if pop_event == self_event
    then (if bit_and event_state state_freed == 0
        then (cancel w self_event, q, true)
        else (w, q, true))
    else (w, q, false)

-- The loop of `prs_sem_signal_once`, which pops an event a round. 0 is the null event.
unfoldable pub signal_once : World → (self_event : ℕ) → List ℕ → Option (World × List ℕ × Bool)
signal_once w self_event [] = some (w, [], false)
signal_once w self_event (pop_event ∷ q) =
    let step : Option (World × List ℕ × Bool) = elim (signal_event w pop_event event_type_signal) [
      | none ↦ none
      | some (w', event_state) ↦
          let rest = signal_once w' self_event q in
          if bit_and event_state state_signaled == 0
          then some (taken self_event pop_event (w', event_state) q)
          else rest
    ] in
    if pop_event == 0 then some (w, q, false) else step

-- What a task that waits does next.
pub data Outcome : Type 0 where
  returns : Outcome
  schedules : Outcome

-- The part of the wait behind the decrement; `value` is the count before it.
unfoldable pub try_wait : World → Sem → (value push_event : ℕ) → Option (World × Sem × Outcome)
try_wait w sem value push_event =
    if is_positive value
    then elim (signal_once w push_event sem.waitq) [
      | none ↦ none
      | some (w', q, signaled) ↦
          some
            (w', record sem { waitq = q }, if signaled then Outcome.returns else Outcome.schedules)
    ]
    else some (w, sem, Outcome.schedules)

unfoldable pub push_event : Sem → (event : ℕ) → Sem
push_event sem event = record sem { waitq = sem.waitq ++ event ∷ []; count = sub_word sem.count 1 }

-- `prs_sem_wait` up to `prs_sched_schedule`, with the event's references; `room` says whether
-- `prs_mpmcq_push` succeeds, and `event` is what `malloc` returns.
unfoldable pub wait_with :
    (refcnt : ℕ)
    → (room : Bool) → World
    → Sem
    → (event task_id : ℕ) → Task
    → Option (World × Sem × Outcome)
wait_with refcnt room w sem event task_id task = elim (create w event task_id task refcnt) [
  | none ↦ none
  | some w' ↦ if room then try_wait w' (push_event sem event) sem.count event else none
]

unfoldable pub wait :
    (room : Bool) → World → Sem → (event task_id : ℕ) → Task → Option (World × Sem × Outcome)
wait = wait_with 1

-- `prs_sem_wait_timeout` up to `prs_timer_queue`.
unfoldable pub wait_timeout :
    (room : Bool) → World → Sem → (event task_id : ℕ) → Task → Option (World × Sem × Outcome)
wait_timeout = wait_with 2

-- The result of `prs_sem_wait_timeout` behind `prs_timer_cancel`.
unfoldable pub timeout_result : (event_type : ℕ) → Option Result
timeout_result event_type =
    if event_type == event_type_signal
    then some ok
    else (if event_type == event_type_timeout then some timeout else none)

unfoldable pub signal : World → Sem → Option (World × Sem)
signal w sem =
    let sem' = record sem { count = word (sem.count + 1) } in
    if is_negative sem.count
    then elim (signal_once w 0 sem.waitq) [
      | none ↦ none
      | some (w', q, _) ↦ some (w', record sem' { waitq = q })
    ]
    else some (w, sem')
