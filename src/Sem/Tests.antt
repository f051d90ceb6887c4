-- ===== src/Sem/Tests.antt =====
-- Each theorem on the semaphore of prs/sem.c at an input.
use prs.Base.{
  ℕ, ◌-◌, ◌*◌, ◌^◌, ◌≡◌, refl, ap, true, Option, none, some, [], ◌∷◌, arith, ◌==◌, if◌then◌else◌,
}
use prs.Task.{Task, running, blocked}
use prs.Task.Token.{token_of}
use prs.Event.{Event, World, signal as signal_event}
use prs.Event.Laws.{drop, woken}
use prs.Sem.{Sem, Outcome, event_type_signal, event_type_timeout, wait_timeout, signal}
use prs.Sem.Signal.{Late, counted, signal-wakes_first}
use prs.Sem.Wait.{CanWait, timeout-loses_signal}

-- Task 9 runs, and task 10 is blocked.
abbrev runner : Task
runner = record { id = 9; state = token_of running 7 (3 * 2 ^ 12) }

abbrev sleeper : Task
sleeper = record { id = 10; state = token_of blocked 0 (5 * 2 ^ 12) }

abbrev event : (task_id count : ℕ) → Event
event task_id count = record {
  task_id = task_id;
  token = token_of blocked 0 (count * 2 ^ 12);
  initial_refcnt = 2;
  refcnt = 2;
}

-- The event at 64 is late, and the one at 80 is task 10's.
abbrev world : World
world = record {
  tasks = λ i. if i == 9 then some runner else (if i == 10 then some sleeper else none);
  events = λ i. if i == 64 then some (event 9 2) else (if i == 80 then some (event 10 5) else none);
  current = 9;
  readied = [];
}

abbrev minus_two : Sem
minus_two = record { max_count = 5; count = 2 ^ 64 - 2; waitq = 64 ∷ 80 ∷ [] }

abbrev positive : Sem
positive = record { max_count = 5; count = 3; waitq = [] }

abbrev none_free : Sem
none_free = record { max_count = 5; count = 0; waitq = [] }

late : Late world 64 (event 9 2)
late = record {
  live = record { found = refl; some_ref = omega arith; refs = omega arith; small = omega arith };
  some_event = omega arith;
  late = λ t h k. differs t h k;
}
  where
    state_of : Option Task → ℕ
    state_of none = 0
    state_of (some t) = t.state

    differs : (t : Task) → some runner ≡ some t → t.state ≡ token_of blocked 0 (2 * 2 ^ 12) → ⊥
    differs t h k = absurd (omega (arith, ap state_of h, k))

signal-wakes_first_example :
    let w = drop world 64 (event 9 2) in
    signal world minus_two
    ≡ some (woken w 80 (event 10 5) sleeper event_type_signal, counted minus_two [])
signal-wakes_first_example =
    signal-wakes_first world minus_two (64 ∷ []) [] (drop world 64 (event 9 2)) 80 (event 10 5)
      sleeper refl refl (event 9 2, late, refl)
      (record { found = refl; some_ref = omega arith; refs = omega arith; small = omega arith })
      (omega arith) refl refl

can : CanWait 96 runner (3 * 2 ^ 12)
can = record {
  s = running;
  ca = 7;
  some_event = omega arith;
  has = record {
    state_fits = omega arith;
    cause_fits = omega arith;
    count_fits = omega arith;
    token = refl;
  };
  runs = omega arith;
}

timeout-loses_signal_example :
    (r r' r'' : World) × (sem' : Sem) × (wait_timeout true world none_free 96 9 runner
      ≡ some (r, sem', Outcome.schedules))
    × (signal_event r 96 event_type_timeout ≡ some (r', 0))
    × (signal r' sem' ≡ some (r'', counted sem' []))
    × ((counted sem' []).count ≡ 0)
    × (r''.tasks ≡ r'.tasks)
timeout-loses_signal_example =
    timeout-loses_signal world none_free 96 9 runner (3 * 2 ^ 12) can refl refl
