-- ===== src/Swprio/Ready.antt =====
-- Which worker `prs_sched_swprio_ready` interrupts.
use prs.Base.{
  ℕ, ◌≤◌, ◌<◌, ◌≡◌, ◌≢◌, ◌⊎◌, refl, sym, subst, Bool-cases, eq_of_test, inl, inr, true, false, not,
  ◌&&◌, ◌||◌, List, [], ◌∷◌, arith, ◌==◌, ltb, if◌then◌else◌,
}
use prs.Base.Result.{ok}
use prs.Swprio.{Entry, Swprio, Worker, max_task_prio, enqueue, lowest, ready_task}

-- The priority number that a worker works at; an idle one works behind all priorities.
abbrev pub level : (ℕ → Entry) → Worker → ℕ
level tasks w = if w.current_task == 0 then max_task_prio else (tasks w.current_task).prio

abbrev pub AllUpTo : (ℕ → Entry) → ℕ → List Worker → Type 0
AllUpTo tasks n [] = Unit {0}
AllUpTo tasks n (w ∷ ws) = (level tasks w ≤ n) × AllUpTo tasks n ws

-- A worker of the list works at this level.
abbrev pub SomeAt : (ℕ → Entry) → (worker n : ℕ) → List Worker → Type 0
SomeAt tasks worker n [] = ⊥
SomeAt tasks worker n (w ∷ ws) =
    ((w.worker ≡ worker) × (level tasks w ≡ n)) ⊎ SomeAt tasks worker n ws

abbrev pub AllWorkers : List Worker → Type 0
AllWorkers [] = Unit {0}
AllWorkers (w ∷ ws) = (w.worker ≢ 0) × AllWorkers ws

module _ (tasks : ℕ → Entry) where
  level_up :
      (w : Worker) (n : ℕ)
      → n ≤ max_task_prio
      → ((w.current_task == 0) || ltb n (tasks w.current_task).prio) ≡ true
      → n ≤ level tasks w
  level_up w n small h = ground arith

  level_down :
      (w : Worker) (n : ℕ)
      → ((w.current_task == 0) || ltb n (tasks w.current_task).prio) ≡ false
      → level tasks w ≤ n
  level_down w n h = ground arith

  -- What the loop answers: a level that bounds those of the workers, and a worker at that level.
  abbrev Bounds : (ws : List Worker) (worker n : ℕ) → ℕ × ℕ → Type 0
  Bounds ws worker n p =
      (n ≤ p.1) × AllUpTo tasks p.1 ws × (((p.0 ≡ worker) × (p.1 ≡ n)) ⊎ SomeAt tasks p.0 p.1 ws)

  step_taken :
      (w : Worker) (ws : List Worker) (worker n : ℕ) (p : ℕ × ℕ)
      → n ≤ level tasks w
      → Bounds ws w.worker (level tasks w) p
      → Bounds (w ∷ ws) worker n p
  step_taken w ws worker n p up (more, rest, inl (a, b)) =
      (omega (arith, more, up), (more, rest), inr (inl (sym a, sym b)))
  step_taken w ws worker n p up (more, rest, inr found) =
      (omega (arith, more, up), (more, rest), inr (inr found))

  step_passed :
      (w : Worker) (ws : List Worker) (worker n : ℕ) (p : ℕ × ℕ)
      → level tasks w ≤ n
      → Bounds ws worker n p
      → Bounds (w ∷ ws) worker n p
  step_passed w ws worker n p up (more, rest, inl same) =
      (more, (omega (arith, more, up), rest), inl same)
  step_passed w ws worker n p up (more, rest, inr found) =
      (more, (omega (arith, more, up), rest), inr (inr found))

  lowest-taken :
      (w : Worker) (ws : List Worker) (worker n : ℕ)
      → ((w.current_task == 0) || ltb n (tasks w.current_task).prio) ≡ true
      → lowest tasks (w ∷ ws) worker n ≡ lowest tasks ws w.worker (level tasks w)
  unfolding lowest
  lowest-taken w ws worker n h = rw h refl

  lowest-passed :
      (w : Worker) (ws : List Worker) (worker n : ℕ)
      → ((w.current_task == 0) || ltb n (tasks w.current_task).prio) ≡ false
      → lowest tasks (w ∷ ws) worker n ≡ lowest tasks ws worker n
  unfolding lowest
  lowest-passed w ws worker n h = rw h refl

  lowest-nil : (worker n : ℕ) → ◌≡◌ {A = ℕ × ℕ} (lowest tasks [] worker n) (worker, n)
  unfolding lowest
  lowest-nil worker n = refl

  lowest-Bounds :
      (ws : List Worker) (worker n : ℕ)
      → n ≤ max_task_prio
      → AllUpTo tasks max_task_prio ws
      → Bounds ws worker n (lowest tasks ws worker n)
  lowest-Bounds [] worker n small all =
      subst (Bounds [] worker n) (sym (lowest-nil worker n)) (omega arith, tt, inl (refl, refl))
  lowest-Bounds (w ∷ ws) worker n small all =
      elim (Bool-cases ((w.current_task == 0) || ltb n (tasks w.current_task).prio)) [
        | inl h ↦ subst (Bounds (w ∷ ws) worker n) (sym (lowest-taken w ws worker n h)) (
            step_taken w ws worker n _ (level_up w n small h)
              (lowest-Bounds ws w.worker (level tasks w) all.0 all.1))
        | inr h ↦
            subst (Bounds (w ∷ ws) worker n) (sym (lowest-passed w ws worker n h)) (
              step_passed w ws worker n _ (level_down w n h)
                (lowest-Bounds ws worker n small all.1))
      ]

  weaken : (ws : List Worker) (n m : ℕ) → n ≤ m → AllUpTo tasks n ws → AllUpTo tasks m ws
  weaken [] n m le all = tt
  weaken (w ∷ ws) n m le (h, all) = (omega (arith, h, le), weaken ws n m le all)

  named_worker : (ws : List Worker) (n : ℕ) → AllWorkers ws → SomeAt tasks 0 n ws → ⊥
  named_worker [] n named found = found
  named_worker (w ∷ ws) n (ne, named) (inl h) = ne h.0
  named_worker (w ∷ ws) n (ne, named) (inr found) = named_worker ws n named found

  abbrev interrupt : (prio : ℕ) → ℕ × ℕ → ℕ
  interrupt prio p = if not (p.0 == 0) && ltb prio p.1 then p.0 else 0

  interrupt-none :
      (ws : List Worker) (prio : ℕ) (p : ℕ × ℕ)
      → AllWorkers ws
      → Bounds ws 0 0 p
      → interrupt prio p ≡ 0
      → AllUpTo tasks prio ws
  interrupt-none ws prio (worker, n) named (more, all, inl same) e =
      weaken ws n prio (omega (arith, same.1)) all
  interrupt-none ws prio (worker, n) named (more, all, inr found) e =
      elim (Bool-cases (worker == 0)) [
        | inl h ↦ absurd (
            named_worker ws n named
              (subst (λ a. SomeAt tasks a n ws) (eq_of_test worker 0 h) found))
        | inr h ↦ weaken ws n prio (behind prio worker n h e) all
      ]
    where
      behind :
          (prio worker n : ℕ) → (worker == 0) ≡ false → interrupt prio (worker, n) ≡ 0 → n ≤ prio
      behind prio worker n h e = ground arith

  interrupt-some :
      (ws : List Worker) (prio : ℕ) (p : ℕ × ℕ)
      → Bounds ws 0 0 p
      → interrupt prio p ≢ 0
      → (n : ℕ) × (prio < n) × SomeAt tasks (interrupt prio p) n ws × AllUpTo tasks n ws
  interrupt-some ws prio (worker, n) (more, all, inl same) ne =
      absurd (ne (zero_worker prio worker n same.0))
    where
      zero_worker : (prio worker n : ℕ) → worker ≡ 0 → interrupt prio (worker, n) ≡ 0
      zero_worker prio worker n h = ground arith
  interrupt-some ws prio (worker, n) (more, all, inr found) ne =
      elim (Bool-cases (not (worker == 0) && ltb prio n)) [
        | inl h ↦ (n, ground arith, rw h found, all)
        | inr h ↦ absurd (ne (rw h refl))
      ]

-- `prs_sched_swprio_ready` puts the task at the end of the queue of its priority. It interrupts no
-- worker, where every worker works at the priority of the task or before it, or one that works
-- behind it, and no worker works behind that one; idle workers work behind all priorities.
pub ready_task-lowest :
    (s : Swprio) (workers : List Worker) (task : ℕ)
    → (s.tasks task).prio < max_task_prio
    → AllUpTo s.tasks max_task_prio workers
    → AllWorkers workers
    → let (r, result, interrupted) = ready_task s workers task in
      (r ≡ enqueue s (s.tasks task).prio task)
      × (result ≡ ok)
      × ((interrupted ≡ 0) → AllUpTo s.tasks (s.tasks task).prio workers)
      × ((interrupted ≢ 0)
          → (n : ℕ) × ((s.tasks task).prio < n)
            × SomeAt s.tasks interrupted n workers
            × AllUpTo s.tasks n workers)
unfolding ready_task
ready_task-lowest s workers task small all named = (
  refl,
  refl,
  interrupt-none s.tasks workers (s.tasks task).prio _ named bounds,
  interrupt-some s.tasks workers (s.tasks task).prio _ bounds,
)
  where
    bounds : Bounds s.tasks workers 0 0 (lowest s.tasks workers 0 0)
    bounds = lowest-Bounds s.tasks workers 0 0 (omega arith) all
