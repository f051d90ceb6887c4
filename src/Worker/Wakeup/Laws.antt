-- ===== src/Worker/Wakeup/Laws.antt =====
-- No wakeup of a worker of prs/worker.c is lost.
use prs.Base.{ℕ, suc, ◌<◌, ◌≡◌, refl, sym, ◌∙◌, Bool, true, false, not, ◌||◌, arith}
use prs.Worker.{flag_interrupt_pending, flag_idle, has_flag}
use prs.Worker.Flags.{Flags}
use prs.Worker.Wakeup.{
  Place, leaving, entry, open_task, shut, checking, choosing, sleepy, asleep, enabling, gone, State,
  Steps, start,
}
use prs.Worker.Wakeup.Invariant.{idle_flag, pending_flag, is_asleep, noticed, reached-Inv}
use prs.Worker.Wakeup.Awaken.{Awakens, in_flight, Sleeps-Awakens}

-- When a worker wakes up, its thread was resumed once and no more, its idle flag is cleared, as the
-- source asserts, and its pending flag is set.
pub asleep-resumed :
    {b : Bool} {s : State} {n : ℕ}
    → Steps b start s
    → s.place ≡ asleep
    → s.sem ≡ suc n
    → (n ≡ 0)
      × (has_flag s.flags flag_idle ≡ false)
      × (has_flag s.flags flag_interrupt_pending ≡ true)
asleep-resumed run here more =
    let (f, c) = reached-Inv run in
    (ground (arith, c), idle_flag c ∙ ground (arith, c), pending_flag c ∙ ground (arith, c))

-- The worker is about to choose a task, at the loop of its entry or out of it.
abbrev pub chooses_or_leaves : Place → Bool
chooses_or_leaves choosing = true
chooses_or_leaves entry = true
chooses_or_leaves leaving = true
chooses_or_leaves gone = true
chooses_or_leaves asleep = false
chooses_or_leaves open_task = false
chooses_or_leaves shut = false
chooses_or_leaves checking = false
chooses_or_leaves sleepy = false
chooses_or_leaves enabling = false

-- Without a pending flag, a post that was noticed finds the worker there.
quiet :
    (p : Place) (f : Flags) (waking : ℕ)
    → (not (is_asleep p) || f.pending) ≡ true
    → noticed p f waking ≡ true
    → f.pending ≡ false
    → chooses_or_leaves p ≡ true
quiet choosing f waking kept heard none_pending = refl
quiet entry f waking kept heard none_pending = refl
quiet leaving f waking kept heard none_pending = refl
quiet gone f waking kept heard none_pending = refl
quiet asleep f waking kept heard none_pending = absurd (ground arith)
quiet open_task f waking kept heard none_pending = absurd (ground arith)
quiet shut f waking kept heard none_pending = absurd (ground arith)
quiet checking f waking kept heard none_pending = absurd (ground arith)
quiet sleepy f waking kept heard none_pending = absurd (ground arith)
quiet enabling f waking kept heard none_pending = absurd (ground arith)

-- Once the posts for a task that was readied are through, a worker that has not chosen a task since is not
-- left asleep: its thread is resumed, or it is about to choose a task, at the loop of its entry or on its
-- way out, or it will find the pending flag set. Where the posts are those of `prs_worker_interrupt` and it
-- runs a task with interrupts enabled, the pending flag is set, and an interrupt is on its way unless one
-- was lost since it enabled interrupts.
pub ready-noticed :
    {b : Bool} {s : State}
    → Steps b start s
    → s.ready ≡ true
    → s.arriving ≡ 0
    → s.waking ≡ 0
    → s.resuming ≡ 0
    → (s.place ≡ asleep → s.sem ≡ 1)
      × (has_flag s.flags flag_interrupt_pending ≡ false → chooses_or_leaves s.place ≡ true)
      × (b ≡ true
          → s.place ≡ open_task
          → (has_flag s.flags flag_interrupt_pending ≡ true)
            × (s.dropped ≡ false → 0 < s.interrupts))
ready-noticed {b} {s} run ready arrived woken resumed =
    let (f, c) = reached-Inv run in
    (
      λ here. ground (arith, c),
      λ e. quiet s.place f s.waking c.kept (ground (arith, c)) (sym (pending_flag c) ∙ e),
      λ prompt here. (pending_flag c ∙ ground (arith, c), λ kept. ground (arith, c)),
    )

-- Whenever a task of a sleeping worker was readied, and no other post begins: in whatever order the steps
-- of the workers come, they are not stuck, and after finitely many the worker runs again and finds the
-- pending flag or the stop flag.
pub asleep-wakes :
    {b : Bool} {s : State} → Steps b start s → s.place ≡ asleep → s.ready ≡ true → Awakens b s
asleep-wakes {s} run here ready =
    let (_, c) = reached-Inv run in
    Sleeps-Awakens (suc (in_flight s)) c
      (record { here = here; readied = ready; few = omega arith })
