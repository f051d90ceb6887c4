-- ===== src/Swcoop/Tests.antt =====
-- Each theorem on the scheduler of prs/sched/swcoop.c at an input.
use prs.Base.{
  ℕ, ◌*◌, ◌^◌, ◌<◌, ◌≡◌, ◌≢◌, refl, true, false, some, [], ◌∷◌, arith, ◌==◌, if◌then◌else◌,
}
use prs.Chain.Seg.{has}
use prs.Task.{Task, stopped, ready, running, zombie, get_state, get_state_of}
use prs.Task.Token.{token_of}
use prs.Task.Laws.{Has}
use prs.Swcoop.{Swcoop, is_running, get_next}
use prs.Swcoop.Purge.{Removable, keeps, get_next-oldest}

abbrev task : (state : ℕ) → Task
task state = record { id = 1; state = token_of state 7 (3 * 2 ^ 12) }

fits : (state : ℕ) → state < 2 ^ 4 → Has (task state) state 7 (3 * 2 ^ 12)
fits state h = record {
  state_fits = h;
  cause_fits = omega arith;
  count_fits = omega arith;
  token = refl;
}

-- Task 16 has stopped and is to be removed, task 32 is ready, and task 48 runs.
abbrev sched : Swcoop
sched = record {
  readyq = 16 ∷ 32 ∷ [];
  removeq = 16 ∷ [];
  tasks = λ t. if t == 16 then task stopped else (if t == 48 then task running else task ready);
  attached = λ t. true;
}

removable : Removable sched (16 ∷ [])
removable = record {
  distinct = (refl, tt);
  stopped =
      λ t h. record { ca = 7; co = 3 * 2 ^ 12; has = rw (same t h) (fits stopped (omega arith)) };
}
  where
    same : (t : ℕ) → has t (16 ∷ []) ≡ true → t ≡ 16
    same t h = ground arith

runs : keeps sched 48 ≡ true
unfolding is_running get_state get_state_of
runs = refl

get_next-oldest_example :
    (r : Swcoop) × (get_next sched 0 ≡ some (r, true, 32))
    × (r.readyq ≡ [])
    × (r.removeq ≡ [])
    × (get_state (r.tasks 32) ≡ running)
    × ((t : ℕ) → has t (16 ∷ []) ≡ true → get_state (r.tasks t) ≡ zombie)
    × ((t : ℕ) → t ≢ 32 → has t (16 ∷ []) ≡ false → r.tasks t ≡ sched.tasks t)
get_next-oldest_example =
    get_next-oldest sched 0 removable refl 32 7 (3 * 2 ^ 12) [] refl refl refl
      (fits ready (omega arith))
