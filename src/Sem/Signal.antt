-- ===== src/Sem/Signal.antt =====
-- `prs_sem_signal` on a queue of events.
use prs.Base.{
  ℕ, ◌+◌, ◌≡◌, ◌≢◌, refl, ◌∙◌, ap, sym, Bool-cases, inl, inr, true, false, some, List, [], ◌∷◌,
  ◌++◌, arith, bit_and, bit_or, ◌==◌, word,
}
use prs.Task.{Task}
use prs.Event.{Event, World, state_signaled}
use prs.Event.Laws.{Live, drop, freed, woken, signal-wakes, signal-late}
use prs.Sem.{Sem, event_type_signal, is_negative, taken, signal_once, signal}

-- The event is allocated, and its task is gone or waits for something else.
pub record Late (w : World) (event : ℕ) (e : Event) : Type 0 where
  pub live : Live w event e
  pub some_event : event ≢ 0
  pub late : (task : Task) → w.tasks e.task_id ≡ some task → task.state ≢ e.token

-- The events are late one after the other, and `w'` is the world without a reference to each.
abbrev pub AllLate : World → List ℕ → World → Type 0
AllLate w [] w' = w ≡ w'
AllLate w (a ∷ others) w' = (e : Event) × Late w a e × AllLate (drop w a e) others w'

freed-signaled :
    (e : Event) → (bit_and (bit_or (freed e) state_signaled) state_signaled == 0) ≡ false
freed-signaled e = elim (Bool-cases (e.refcnt == 1)) [ inl h ↦ rw h refl | inr h ↦ rw h refl ]

freed-unsignaled : (e : Event) → (bit_and (freed e) state_signaled == 0) ≡ true
freed-unsignaled e = elim (Bool-cases (e.refcnt == 1)) [ inl h ↦ rw h refl | inr h ↦ rw h refl ]

pub not_zero : (a : ℕ) → a ≢ 0 → (a == 0) ≡ false
not_zero a ne = ground arith

signal_once-Late :
    (w : World) (self a : ℕ) (e : Event) (q : List ℕ)
    → Late w a e
    → signal_once w self (a ∷ q) ≡ signal_once (drop w a e) self q
unfolding signal_once
signal_once-Late w self a e q late =
    rw
      (
        not_zero a late.some_event,
        signal-late late.live event_type_signal late.late,
        freed-signaled e,
      )
      refl

pub signal_once-wakes :
    (w : World) (self a : ℕ) (e : Event) (q : List ℕ) (task : Task)
    → Live w a e
    → a ≢ 0
    → w.tasks e.task_id ≡ some task
    → task.state ≡ e.token
    → signal_once w self (a ∷ q)
      ≡ some (taken self a (woken w a e task event_type_signal, freed e) q)
unfolding signal_once
signal_once-wakes w self a e q task live ne found waits =
    rw (not_zero a ne, signal-wakes live task event_type_signal found waits, freed-unsignaled e)
      refl

signal_once-empty : (w : World) (self : ℕ) → signal_once w self [] ≡ some (w, [], false)
unfolding signal_once
signal_once-empty w self = refl

signal_once-all :
    (others : List ℕ) (w w' : World) (self : ℕ) (q : List ℕ)
    → AllLate w others w'
    → signal_once w self (others ++ q) ≡ signal_once w' self q
signal_once-all [] w w' self q e = ap (λ w. signal_once w self q) e
signal_once-all (a ∷ others) w w' self q (e, late, rest) =
    signal_once-Late w self a e (others ++ q) late
    ∙ signal_once-all others (drop w a e) w' self q rest

abbrev pub counted : Sem → List ℕ → Sem
counted sem q = record sem { count = word (sem.count + 1); waitq = q }

taken_other :
    (self a : ℕ) (w : World) (state : ℕ) (q : List ℕ)
    → (a == self) ≡ false
    → taken self a (w, state) q ≡ (w, q, false)
unfolding taken
taken_other self a w state q ne = rw ne refl

module _ (w : World) (sem : Sem) where
  -- `prs_sem_signal` on a negative count passes over the events that come too
  -- late and wakes the task of the first event whose task still waits, with the cause
  -- `PRS_SEM_EVENT_TYPE_SIGNAL`; the events behind it stay queued, and the count goes up by one.
  pub signal-wakes_first :
      (others q : List ℕ) (w' : World) (event : ℕ) (e : Event) (task : Task)
      → is_negative sem.count ≡ true
      → sem.waitq ≡ others ++ event ∷ q
      → AllLate w others w'
      → Live w' event e
      → event ≢ 0
      → w'.tasks e.task_id ≡ some task
      → task.state ≡ e.token
      → signal w sem ≡ some (woken w' event e task event_type_signal, counted sem q)
  unfolding signal
  signal-wakes_first others q w' event e task negative queue late live some_event found waits =
      let run =
        ap (signal_once w 0) queue
        ∙ signal_once-all others w w' 0 (event ∷ q) late
        ∙ signal_once-wakes w' 0 event e q task live some_event found waits
        ∙ ap some (taken_other 0 event _ (freed e) q (not_zero event some_event)) in
      rw (signal, negative, run) refl

  -- `prs_sem_signal` when the events of all tasks that wait come too late counts up, empties the
  -- queue, and wakes no task.
  pub signal-none_left :
      (w' : World)
      → is_negative sem.count ≡ true
      → AllLate w sem.waitq w'
      → signal w sem ≡ some (w', counted sem [])
  unfolding signal
  signal-none_left w' negative late =
      let run =
        ap (signal_once w 0) (sym (append_nil sem.waitq))
        ∙ signal_once-all sem.waitq w w' 0 [] late
        ∙ signal_once-empty w' 0 in
      rw (signal, negative, run) refl
    where
      append_nil : (q : List ℕ) → q ++ [] ≡ q
      append_nil [] = refl
      append_nil (x ∷ q) = ap (λ q. x ∷ q) (append_nil q)

  -- `prs_sem_signal` with no task waiting, a count that is not negative, counts up only.
  pub signal-counts : is_negative sem.count ≡ false → signal w sem ≡ some (w, counted sem sem.waitq)
  unfolding signal
  signal-counts positive = rw positive refl
