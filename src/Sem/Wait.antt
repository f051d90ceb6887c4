-- ===== src/Sem/Wait.antt =====
-- `prs_sem_wait` and `prs_sem_wait_timeout` on a queue of events.
use prs.Base.{
  ℕ, ◌^◌, ◌<◌, ◌≡◌, ◌≢◌, refl, ◌∙◌, ap, sym, subst, Bool-cases, inl, inr, true, false, Option, none,
  some, List, [], ◌∷◌, ◌++◌, arith, ◌==◌, sub_word, update, test_self,
}
use prs.Task.{Task, blocked}
use prs.Task.Token.{token_of}
use prs.Task.Laws.{Has, put, next_count}
use prs.Event.{Event, World, create, cancel, destroy}
use prs.Event.Laws.{
  after, drop, freed, woken, signal-first, woken-Live, woken-late, Waits, create-Waits,
}
use prs.Event.{signal as signal_event}
use prs.Sem.{
  Sem, event_type_signal, event_type_timeout, is_positive, taken, signal_once, Outcome, try_wait,
  push_event, wait_with, wait, wait_timeout, signal,
}
use prs.Sem.Signal.{Late, AllLate, counted, signal_once-wakes, signal-none_left}

-- The event that a wait creates, and its task, blocked.
abbrev pub new : (task_id refcnt co : ℕ) → Event
new task_id refcnt co = record {
  task_id = task_id;
  token = token_of blocked 0 (next_count co);
  initial_refcnt = refcnt;
  refcnt = refcnt;
}

abbrev pub blocked_task : Task → (co : ℕ) → Task
blocked_task task co = put task blocked 0 (next_count co)

-- A task that can wait.
pub record CanWait (event : ℕ) (task : Task) (co : ℕ) : Type 0 where
  pub s : ℕ
  pub ca : ℕ
  pub some_event : event ≢ 0
  pub has : Has task s ca co
  pub runs : s ≢ blocked

-- The world after the wait has blocked its task.
pub record Blocks (w : World) (event : ℕ) (e : Event) (task : Task) (r : World) : Type 0 where
  pub waits : Waits r event e task
  pub tasks : (i : ℕ) → i ≢ e.task_id → r.tasks i ≡ w.tasks i
  pub events : (i : ℕ) → i ≢ event → r.events i ≡ w.events i

taken_self :
    (a : ℕ) (w : World) (e : Event) (q : List ℕ)
    → (r : World) × (taken a a (w, freed e) q ≡ (r, q, true))
      × (r.tasks ≡ w.tasks)
      × ((w.events a ≡ after e) → r.events a ≡ none)
unfolding taken cancel destroy
taken_self a w e q = elim (Bool-cases (e.refcnt == 1)) [
  | inl h ↦ (w, rw (taken, test_self a, h) refl, refl, λ k. k ∙ rw h refl)
  | inr h ↦ (cancel w a, rw (taken, test_self a, h) refl, refl, λ k. rw (test_self a) refl)
]

module _ (w : World) (sem : Sem) (event task_id : ℕ) (task : Task) (co refcnt : ℕ)
    (can : CanWait event task co) (some_ref : 0 < refcnt) (small : refcnt < 2 ^ 64) where
  blocks :
      (r : World) × (create w event task_id task refcnt ≡ some r)
      × Blocks w event (new task_id refcnt co) (blocked_task task co) r
  blocks =
      let (r, e, waits, tasks, events) =
        create-Waits w event task_id refcnt task can.s can.ca co can.some_event can.has can.runs
          some_ref small in
      (r, e, record { waits = waits; tasks = tasks; events = events })

  wait_with_lem :
      {r : World}
      → create w event task_id task refcnt ≡ some r
      → wait_with refcnt true w sem event task_id task
        ≡ try_wait r (push_event sem event) sem.count event
  unfolding wait_with
  wait_with_lem e = rw (wait_with, e) refl

  wait_with-blocks :
      is_positive sem.count ≡ false
      → (r : World) × (wait_with refcnt true w sem event task_id task
          ≡ some (r, push_event sem event, Outcome.schedules))
        × Blocks w event (new task_id refcnt co) (blocked_task task co) r
  unfolding try_wait
  wait_with-blocks positive = let (r, e, b) = blocks in (r, wait_with_lem e ∙ rw positive refl, b)

  wait_with-takes :
      is_positive sem.count ≡ true
      → sem.waitq ≡ []
      → (r r' : World) × (wait_with refcnt true w sem event task_id task
          ≡ some (r', record sem { count = sub_word sem.count 1; waitq = [] }, Outcome.returns))
        × Blocks w event (new task_id refcnt co) (blocked_task task co) r
        × (r'.tasks
            ≡ (woken r event
                (new task_id refcnt co)
                (blocked_task task co)
                event_type_signal).tasks)
        × (r'.events event ≡ none)
  unfolding try_wait push_event
  wait_with-takes positive empty =
      let (r, e, b) = blocks in
      let (r', t, tasks, gone) =
        taken_self event
          (woken r event (new task_id refcnt co) (blocked_task task co) event_type_signal)
          (new task_id refcnt co) [] in
      let queue : sem.waitq ++ event ∷ [] ≡ event ∷ [] = ap (λ q. q ++ event ∷ []) empty in
      let run =
        ap (signal_once r event) queue
        ∙ signal_once-wakes r event event (new task_id refcnt co) [] (blocked_task task co)
            b.waits.live can.some_event b.waits.found b.waits.token
        ∙ ap some t in
      (
        r,
        r',
        wait_with_lem e ∙ rw (positive, run) refl,
        b,
        tasks,
        gone (update_here r.events event),
      )
    where
      update_here : (f : ℕ → Option Event) (i : ℕ) {v : Option Event} → update f i v i ≡ v
      update_here f i = rw (test_self i) refl

module _ (w : World) (sem : Sem) (event task_id : ℕ) (task : Task) (co : ℕ)
    (can : CanWait event task co) where
  -- `prs_sem_wait` on a positive count with an empty queue takes one from the count and returns at
  -- once: its own event wakes the task that calls it, with the cause `PRS_SEM_EVENT_TYPE_SIGNAL`, and
  -- is freed.
  pub wait-takes :
      is_positive sem.count ≡ true
      → sem.waitq ≡ []
      → (r r' : World) × (wait true w sem event task_id task
          ≡ some (r', record sem { count = sub_word sem.count 1; waitq = [] }, Outcome.returns))
        × Blocks w event (new task_id 1 co) (blocked_task task co) r
        × (r'.tasks
            ≡ (woken r event (new task_id 1 co) (blocked_task task co) event_type_signal).tasks)
        × (r'.events event ≡ none)
  unfolding wait
  wait-takes = wait_with-takes w sem event task_id task co 1 can (omega arith) (omega arith)

  -- `prs_sem_wait` on a count that is not positive blocks the task, queues its event behind those
  -- that are queued, takes one from the count, and calls the scheduler.
  pub wait-blocks :
      is_positive sem.count ≡ false
      → (r : World) × (wait true w sem event task_id task
          ≡ some (
            r,
            record sem { count = sub_word sem.count 1; waitq = sem.waitq ++ event ∷ [] },
            Outcome.schedules,
          ))
        × Blocks w event (new task_id 1 co) (blocked_task task co) r
  unfolding wait push_event
  wait-blocks = wait_with-blocks w sem event task_id task co 1 can (omega arith) (omega arith)

  -- A wait that times out costs a signal: `prs_sem_wait_timeout` on a count of 0 with an empty queue
  -- blocks the task, the timer's signal wakes it, and `prs_sem_signal` then leaves the semaphore as it
  -- was before the wait, with a count of 0 and an empty queue, and wakes no task.
  pub timeout-loses_signal :
      sem.count ≡ 0
      → sem.waitq ≡ []
      → (r r' r'' : World) × (sem' : Sem) × (wait_timeout true w sem event task_id task
          ≡ some (r, sem', Outcome.schedules))
        × (signal_event r event event_type_timeout ≡ some (r', 0))
        × (signal r' sem' ≡ some (r'', counted sem' []))
        × ((counted sem' []).count ≡ 0)
        × (r''.tasks ≡ r'.tasks)
  unfolding wait_timeout push_event
  timeout-loses_signal count empty =
      let (r, e, b) =
        wait_with-blocks w sem event task_id task co 2 can (omega arith) (omega arith)
          (rw count refl) in
      let ev = new task_id 2 co in
      let t = blocked_task task co in
      let has' : Has t blocked 0 (next_count co) = record {
        state_fits = omega arith;
        cause_fits = omega arith;
        count_fits = omega arith;
        token = refl;
      } in
      let late : Late (woken r event ev t event_type_timeout) event (record ev { refcnt = 1 }) =
        record {
          live =
              woken-Live r event ev t blocked 0 (next_count co) event_type_timeout b.waits.live has'
                refl (omega arith) (omega arith);
          some_event = can.some_event;
          late =
              woken-late r event ev t blocked 0 (next_count co) event_type_timeout b.waits.live has'
                refl (omega arith) (omega arith);
        } in
      (
        r,
        woken r event ev t event_type_timeout,
        drop (woken r event ev t event_type_timeout) event (record ev { refcnt = 1 }),
        push_event sem event,
        e,
        signal-first r event ev t blocked 0 (next_count co) event_type_timeout b.waits.live has'
            refl (omega arith) (omega arith) b.waits.found,
        signal-none_left _ (push_event sem event) _ (rw count refl) (
            subst
              (λ q.
                AllLate (woken r event ev t event_type_timeout) q
                  (drop (woken r event ev t event_type_timeout) event (record ev { refcnt = 1 })))
              (sym (ap (λ q. q ++ event ∷ []) empty)) (record ev { refcnt = 1 }, late, refl)),
        rw count refl,
        refl,
      )
