-- ===== src/Swprio/Tests.antt =====
-- Each theorem on the scheduler of prs/sched/swprio.c at an input.
use prs.Base.{
  ℕ, ◌*◌, ◌^◌, ◌<◌, ◌≡◌, refl, Bool-cases, inl, inr, true, false, ◌||◌, some, List, [], ◌∷◌, arith,
  ◌==◌, if◌then◌else◌,
}
use prs.Task.{ready, running, get_state, get_state_of}
use prs.Task.Token.{token_of}
use prs.Task.Laws.{Has}
use prs.Swprio.{Entry, Swprio, Worker, is_empty, is_running, get_next}
use prs.Swprio.Queue.{Masked}
use prs.Swprio.Laws.{First, keeps, Switched, get_next-switches}
use prs.Swprio.Preempt.{Preempted, get_next-preempts}

abbrev entry : (state prio : ℕ) → Entry
entry state prio = record {
  task = record { id = 1; state = token_of state 7 (3 * 2 ^ 12) };
  prio = prio;
  attached = true;
}

-- Tasks 16 and 32 are ready at priority 3, and task 48 runs at priority 5.
abbrev sched : Swprio
sched = record {
  ready_mask = λ p. (p == 3) || (p == 1);
  readyq = λ p. if p == 3 then 16 ∷ 32 ∷ [] else [];
  removeq = [];
  tasks = λ t.
      if t == 48 then entry running 5 else (if t == 64 then entry running 2 else entry ready 3);
}

sched-Masked : Masked sched
sched-Masked = record {
  masked = λ p h. elim (Bool-cases (p == 3)) [ inl e ↦ rw e refl | inr e ↦ absurd (empty p e h) ];
  bounded = λ p h. let e : (p == 3) ≡ false = ground arith in rw e refl;
}
  where
    empty : (p : ℕ) → (p == 3) ≡ false → is_empty (sched.readyq p) ≡ false → ⊥
    empty p e h = absurd (ground arith)

sched-First : First sched 3 16 (32 ∷ [])
sched-First = record {
  prio = omega arith;
  here = refl;
  below = λ m h. let e : (m == 3) ≡ false = ground arith in rw e refl;
}

fits :
    (state : ℕ)
    → state < 2 ^ 4
    → Has (record { id = 1; state = token_of state 7 (3 * 2 ^ 12) }) state 7 (3 * 2 ^ 12)
fits state h = record {
  state_fits = h;
  cause_fits = omega arith;
  count_fits = omega arith;
  token = refl;
}

runs : (keeps sched 64 ≡ true) × (keeps sched 48 ≡ true)
unfolding is_running get_state get_state_of
runs = (refl, refl)

get_next-switches_example :
    (r : Swprio) × (get_next sched 0 ≡ some (r, true, 16)) × Switched sched 3 16 (32 ∷ []) r
get_next-switches_example =
    get_next-switches sched 0 3 16 7 (3 * 2 ^ 12) (32 ∷ []) sched-Masked sched-First refl refl
      (fits ready (omega arith))

get_next-preempts_example :
    (r : Swprio) × (get_next sched 48 ≡ some (r, true, 16)) × Preempted sched 48 3 16 (32 ∷ []) r
get_next-preempts_example =
    get_next-preempts sched 48 3 16 7 (3 * 2 ^ 12) 7 (3 * 2 ^ 12) (32 ∷ []) sched-Masked sched-First
      refl runs.1 (omega arith) (omega arith) (omega arith) (fits running (omega arith))
      (fits ready (omega arith))

-- The workers 1 and 2 run the tasks 48 and 64, and task 16 becomes ready.
abbrev workers : List Worker
workers = record { worker = 1; current_task = 64 } ∷ record { worker = 2; current_task = 48 } ∷ []
