-- ===== src/Worker/Tests.antt =====
-- Each theorem on the workers of prs/worker.c at an input.
use prs.Base.{ℕ, ◌<◌, ◌≡◌, refl, true, false}
use prs.Worker.{
  flag_interrupt_pending, flag_idle, has_flag, add_flag, drop_flag, idle_flags, prologue_flags,
  turn, post_rest, post_idle,
}
use prs.Worker.Wakeup.Awaken.{Awakens}
use prs.Worker.Wakeup.{
  State, Steps, stay, step, start, asleep, open_task, enters, finds, to_caller, to_prologue,
  enables_int, checks, enables, posts_awake, drops, finds_none, sleeps, readies, posts_idle, wakes,
  resumes,
}
use prs.Worker.Wakeup.Laws.{chooses_or_leaves, asleep-resumed, ready-noticed, asleep-wakes}

program : Unit {0}
unfolding add_flag drop_flag idle_flags prologue_flags turn post_rest post_idle
program = tt

-- The worker falls asleep.
abbrev sleeping : State
sleeping = record start { flags = 6; place = asleep }

falls_asleep : Steps true start sleeping
unfolding program
falls_asleep = step (step (step stay (enters refl refl)) (finds_none refl)) (sleeps refl refl)

abbrev readied : State
readied = record sleeping { ready = true; arriving = 1 }

readied_run : Steps true start readied
readied_run = step falls_asleep readies

asleep-wakes_example : Awakens true readied
asleep-wakes_example = asleep-wakes readied_run refl refl

-- The other worker has resumed the thread.
abbrev resumed : State
resumed = record sleeping { flags = 2; sem = 1; ready = true }

resumed_run : Steps true start resumed
unfolding program
resumed_run = step (step (step readied_run (posts_idle refl refl)) (wakes refl)) (resumes refl)

asleep-resumed_example :
    (◌≡◌ {A = ℕ} 0 0)
    × (has_flag resumed.flags flag_idle ≡ false)
    × (has_flag resumed.flags flag_interrupt_pending ≡ true)
asleep-resumed_example = asleep-resumed resumed_run refl refl

-- A task with interrupts enabled, for which an interrupt is lost.
abbrev open_state : State
open_state = record start { flags = 1; place = open_task }

opens : Steps true start open_state
unfolding program
opens =
    step
      (step (step (step (step stay (enters refl refl)) (finds refl to_caller)) (enables_int refl))
        (checks refl to_prologue))
      (enables refl refl)

abbrev lost : State
lost = record open_state { flags = 3; ready = true; dropped = true }

lost_run : Steps true start lost
unfolding program
lost_run = step (step (step opens readies) (posts_awake refl refl)) (drops refl refl)

ready-noticed_example :
    (lost.place ≡ asleep → lost.sem ≡ 1)
    × (has_flag lost.flags flag_interrupt_pending ≡ false → chooses_or_leaves lost.place ≡ true)
    × (true ≡ true
        → lost.place ≡ open_task
        → (has_flag lost.flags flag_interrupt_pending ≡ true)
          × (lost.dropped ≡ false → 0 < lost.interrupts))
ready-noticed_example = ready-noticed lost_run refl refl refl refl
