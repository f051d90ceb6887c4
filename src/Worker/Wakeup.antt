-- ===== src/Worker/Wakeup.antt =====
-- A worker of prs/worker.c that falls asleep while other workers ready its tasks, in any interleaving.
-- Each step is one access to the flags or to the semaphore of the thread, or the call of `get_next`.
pub mod Awaken
pub mod Invariant
pub mod Laws
use prs.Base.{ℕ, suc, ◌≡◌, ◌≢◌, Bool, true, false, none, some}
use prs.Worker.{
  flag_interruptible, flag_interrupt_pending, flag_idle, flag_stop, has_flag, add_flag, drop_flag,
  idle_flags, prologue_flags, Turn, leave, choose, go_on, turn, Post, post_rest, post_idle, wake,
  interrupt_thread, answer,
}

-- Where the worker stands: before the test of the stop flag in `prs_worker_entry`, in a task with
-- interrupts, in PRS code without, before the access to the flags in `prs_worker_schedule_internal`,
-- before `get_next`, before the access in `prs_worker_idle`, in `prs_pal_thread_suspend`, before the access
-- in `prs_worker_task_prologue`, out of the loop of the entry. `leaving` is there too, behind the swap of a task that stopped its own worker with interrupts on.
pub data Place : Type 0 where
  entry leaving open_task shut checking choosing sleepy asleep enabling gone : Place

-- Whether interrupts are enabled.
abbrev pub is_open : Place → Bool
is_open open_task = true
is_open leaving = true
is_open entry = false
is_open shut = false
is_open checking = false
is_open choosing = false
is_open sleepy = false
is_open asleep = false
is_open enabling = false
is_open gone = false

-- `ready` says that a task was readied, or the worker told to stop, since `get_next` was called last.
-- The numbers count the other workers that are about to set the pending flag, those that are about to
-- clear the idle flag, those that are about to resume the thread, and the interrupts on their way, whose
-- `pthread_kill` may be yet to come. `dropped` says that an interrupt was lost since interrupts were
-- enabled last.
pub record State : Type 0 where
  pub flags : ℕ
  pub sem : ℕ
  pub place : Place
  pub ready : Bool
  pub arriving : ℕ
  pub waking : ℕ
  pub resuming : ℕ
  pub interrupts : ℕ
  pub dropped : Bool

-- A post sends what `prs_worker_post` decided.
abbrev pub sent : Post → State → State
sent wake s = record s { resuming = suc s.resuming }
sent interrupt_thread s = record s { interrupts = suc s.interrupts }
sent (answer _) s = s

abbrev pub place_of : Turn → (back : Place) → Place
place_of leave back = entry
place_of choose back = choosing
place_of go_on back = back

-- Where `prs_worker_schedule_internal` goes back to. When it leaves, it swaps to, or returns into, the loop
-- of `prs_worker_entry`.
pub data Back : Place → Type 0 where
  to_entry : Back entry
  to_prologue : Back enabling
  to_caller : Back shut

-- `interrupt` says whether the posts are those of `prs_worker_interrupt` or of `prs_worker_signal`.
pub data Step (interrupt : Bool) (s : State) : State → Type 0 where
  readies : Step interrupt s (record s { ready = true; arriving = suc s.arriving })
  stops :
      Step interrupt s
        (record s { flags = add_flag flag_stop s.flags; ready = true; arriving = suc s.arriving })
  posts_awake :
      {n : ℕ}
      → s.arriving ≡ suc n
      → has_flag s.flags flag_idle ≡ false
      → Step interrupt s (
          sent
            (post_rest interrupt s.flags)
            (record s { flags = add_flag flag_interrupt_pending s.flags; arriving = n }))
  posts_idle :
      {n : ℕ}
      → s.arriving ≡ suc n
      → has_flag s.flags flag_idle ≡ true
      → Step interrupt s (record s {
        flags = add_flag flag_interrupt_pending s.flags;
        arriving = n;
        waking = suc s.waking;
      })
  wakes :
      {n : ℕ}
      → s.waking ≡ suc n
      → Step interrupt s (
          sent
            (post_idle interrupt s.flags)
            (record s { flags = drop_flag flag_idle s.flags; waking = n }))
  resumes :
      {n : ℕ} → s.resuming ≡ suc n → Step interrupt s (record s { resuming = n; sem = suc s.sem })
  checks :
      {back : Place}
      → s.place ≡ checking
      → Back back
      → Step interrupt s (record s {
        flags = drop_flag flag_interrupt_pending s.flags;
        place = place_of (turn s.flags) back;
      })
  finds :
      {back : Place}
      → s.place ≡ choosing
      → Back back
      → Step interrupt s (record s { place = back; ready = false })
  -- The scheduler asks for the stack of the thread.
  exits : s.place ≡ choosing → Step interrupt s (record s { place = entry; ready = false })
  finds_none : s.place ≡ choosing → Step interrupt s (record s { place = sleepy; ready = false })
  sleeps :
      {g : ℕ}
      → s.place ≡ sleepy
      → idle_flags s.flags ≡ some g
      → Step interrupt s (record s { flags = g; place = asleep })
  stays_awake :
      s.place ≡ sleepy
      → idle_flags s.flags ≡ none
      → Step interrupt s (record s { place = checking })
  wakes_up :
      {n : ℕ}
      → s.place ≡ asleep
      → s.sem ≡ suc n
      → Step interrupt s (record s { sem = n; place = checking })
  enables :
      {g : ℕ}
      → s.place ≡ enabling
      → prologue_flags s.flags ≡ some g
      → Step interrupt s (record s { flags = g; place = open_task; dropped = false })
  checks_again :
      s.place ≡ enabling
      → prologue_flags s.flags ≡ none
      → Step interrupt s (record s { place = checking })
  disables :
      s.place ≡ open_task
      → Step interrupt s (record s { flags = drop_flag flag_interruptible s.flags; place = shut })
  is_interrupted :
      {n : ℕ}
      → s.place ≡ open_task
      → s.interrupts ≡ suc n
      → Step interrupt s (record s {
        flags = drop_flag flag_interruptible s.flags;
        place = checking;
        interrupts = n;
      })
  ignores :
      {n : ℕ}
      → is_open s.place ≡ false
      → s.interrupts ≡ suc n
      → Step interrupt s (record s { interrupts = n })
  -- The code that an interrupt finds is not user text, so that `prs_worker_interruptible` refuses it.
  drops :
      {n : ℕ}
      → is_open s.place ≡ true
      → s.interrupts ≡ suc n
      → Step interrupt s (record s { interrupts = n; dropped = true })
  -- `pthread_kill` fails.
  fails :
      {n : ℕ}
      → s.interrupts ≡ suc n
      → Step interrupt s (record s { interrupts = n; dropped = true })
  enables_int : s.place ≡ shut → Step interrupt s (record s { place = checking })
  schedules : s.place ≡ shut → Step interrupt s (record s { place = choosing })
  -- `prs_worker_stop` of the worker that calls it.
  stops_self :
      s.place ≡ shut
      → Step interrupt s (record s { flags = add_flag flag_stop s.flags; place = entry })
  stops_open :
      s.place ≡ open_task
      → Step interrupt s (record s { flags = add_flag flag_stop s.flags; place = leaving })
  enters :
      s.place ≡ entry
      → has_flag s.flags flag_stop ≡ false
      → Step interrupt s (record s { place = choosing })
  leaves :
      s.place ≡ entry
      → has_flag s.flags flag_stop ≡ true
      → Step interrupt s (record s { place = gone })

pub data Steps (interrupt : Bool) (s : State) : State → Type 0 where
  stay : Steps interrupt s s
  step : {t u : State} → Steps interrupt s t → Step interrupt t u → Steps interrupt s u

-- As `prs_worker_start` leaves the flags, at the loop of `prs_worker_entry`.
abbrev pub start : State
start = record {
  flags = 0;
  sem = 0;
  place = entry;
  ready = false;
  arriving = 0;
  waking = 0;
  resuming = 0;
  interrupts = 0;
  dropped = false;
}
