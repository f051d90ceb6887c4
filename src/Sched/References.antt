-- ===== src/Sched/References.antt =====
-- The references that prs/sched.c keeps to a scheduler and to its tasks.
use prs.Base.{
  ℕ, ◌+◌, ◌<◌, ◌≡◌, ◌≢◌, refl, subst, Bool, not, Bool-cases, inl, inr, false, arith, ◌==◌,
  if◌then◌else◌,
}
use prs.Base.Result.{Result}
use prs.God
use prs.God.{God}
use prs.God.Fields.{max_refcnt}
use prs.God.Count.{Both, swap, lock-Both, unlock-Both}
use prs.Sched.{is_ok}
use prs.Sched.Tasks.{
  SchedOps, Outcome, unlock_both, add_task, add_result, remove_task, remove_result,
}

-- The references that a success adds.
abbrev pub gained : Bool → ℕ
gained success = if success then 1 else 0

-- An outcome reports this success, and leaves these numbers of references.
abbrev pub Counted : {D : Type 0} → (id task_id c d : ℕ) → (success : Bool) → Outcome D → Type 0
Counted id task_id c d success out = (is_ok out.result ≡ success) × Both out.god id task_id c d

module _ {D : Type 0} (ops : SchedOps D) (o : God.Ops) where
  unlock_both-Both :
      (g : God) (id task_id c d : ℕ)
      → Both g id task_id (c + 1) (d + 1)
      → 0 < c
      → 0 < d
      → Both (unlock_both ops o g id task_id) id task_id c d
  unlock_both-Both g id task_id c d b more more' =
      unlock-Both o _ id task_id c d (swap (unlock-Both o g task_id id d (c + 1) (swap b) more'))
        more

  -- What both functions do once the scheduler and the task are locked.
  locked-Both :
      (g : God) (id task_id c d : ℕ)
      → Both g id task_id c d
      → c < max_refcnt
      → d < max_refcnt
      → ((God.lock g id).1 ≢ 0)
        × ((God.lock (God.lock g id).0 task_id).1 ≢ 0)
        × Both (God.lock (God.lock g id).0 task_id).0 id task_id (c + 1) (d + 1)
  locked-Both g id task_id c d b room room' =
      let first = lock-Both g id task_id c d b room in
      let second = lock-Both (God.lock g id).0 task_id id d (c + 1) (swap first.1) room' in
      (first.0, second.0, swap second.1)

  add_result-Counted :
      (g : God) (id task_id sched_id c d : ℕ) (r : D × Result)
      → Both g id task_id (c + 1) (d + 1)
      → 0 < c
      → 0 < d
      → Counted id task_id
          (c + gained (is_ok r.1))
          (d + gained (is_ok r.1))
          (is_ok r.1)
          (add_result ops o g id task_id sched_id r)
  add_result-Counted g id task_id sched_id c d (s, result) b more more' =
      elim (Bool-cases (is_ok result)) [
        | inl e ↦ rw e (refl, b)
        | inr e ↦
            let same : c + 0 ≡ c = omega arith in
            let same' : d + 0 ≡ d = omega arith in
            rw (e, same, same') (e, unlock_both-Both g id task_id c d b more more')
      ]

  remove_result-Counted :
      (g : God) (id task_id sched_id c d : ℕ) (r : D × Result)
      → Both g id task_id (c + 2) (d + 2)
      → 0 < c
      → 0 < d
      → Counted id task_id
          (c + gained (not (is_ok r.1)))
          (d + gained (not (is_ok r.1)))
          (is_ok r.1)
          (remove_result ops o g id task_id sched_id r)
  remove_result-Counted g id task_id sched_id c d (s, result) b more more' =
      let there : c + 2 ≡ c + 1 + 1 = omega arith in
      let there' : d + 2 ≡ d + 1 + 1 = omega arith in
      let b' =
        subst (λ n. Both g id task_id n (d + 1 + 1)) there
          (subst (λ n. Both g id task_id (c + 2) n) there' b) in
      let once = unlock_both-Both g id task_id (c + 1) (d + 1) b' (omega arith) (omega arith) in
      elim (Bool-cases (is_ok result)) [
        | inl e ↦
            let same : c + 0 ≡ c = omega arith in
            let same' : d + 0 ≡ d = omega arith in
            rw (e, same, same') (refl, unlock_both-Both _ id task_id c d once more more')
        | inr e ↦ rw e (e, once)
      ]

  -- With the scheduler and the task in different entries of the directory and both in use,
  -- `prs_sched_add_task` reports what the scheduler's `add` reports. Where that is a success it keeps a
  -- reference to each of the two; else their numbers of references are as before.
  pub add_task-Counted :
      (g : God) (id task_id sched_id c d : ℕ) (s : D)
      → Both g id task_id c d
      → 0 < c
      → 0 < d
      → c < max_refcnt
      → d < max_refcnt
      → let success = is_ok (ops.add s (God.lock (God.lock g id).0 task_id).1).1 in
        Counted id task_id
          (c + gained success)
          (d + gained success)
          success
          (add_task ops o g id task_id sched_id s)
  unfolding add_task
  add_task-Counted g id task_id sched_id c d s b more more' room room' =
      let l = locked-Both g id task_id c d b room room' in
      let sched : ((God.lock g id).1 == 0) ≡ false = ground (arith, l.0) in
      let task : ((God.lock (God.lock g id).0 task_id).1 == 0) ≡ false = ground (arith, l.1) in
      rw (sched, task)
        (add_result-Counted (God.lock (God.lock g id).0 task_id).0 id task_id sched_id c d
          (ops.add s (God.lock (God.lock g id).0 task_id).1) l.2 more more')

  -- `prs_sched_remove_task`, of a task that the scheduler keeps a reference to, reports what the
  -- scheduler's `remove` reports. Where that is a success it gives up the references that
  -- `prs_sched_add_task` has kept to the two; else their numbers of references are as before.
  pub remove_task-Counted :
      (g : God) (id task_id sched_id c d : ℕ) (s : D)
      → Both g id task_id (c + 1) (d + 1)
      → 0 < c
      → 0 < d
      → c + 1 < max_refcnt
      → d + 1 < max_refcnt
      → let success = is_ok (ops.remove s (God.lock (God.lock g id).0 task_id).1).1 in
        Counted id task_id
          (c + gained (not success))
          (d + gained (not success))
          success
          (remove_task ops o g id task_id sched_id s)
  unfolding remove_task
  remove_task-Counted g id task_id sched_id c d s b more more' room room' =
      let l = locked-Both g id task_id (c + 1) (d + 1) b room room' in
      let sched : ((God.lock g id).1 == 0) ≡ false = ground (arith, l.0) in
      let task : ((God.lock (God.lock g id).0 task_id).1 == 0) ≡ false = ground (arith, l.1) in
      let there : c + 1 + 1 ≡ c + 2 = omega arith in
      let there' : d + 1 + 1 ≡ d + 2 = omega arith in
      let b' =
        subst (λ n. Both (God.lock (God.lock g id).0 task_id).0 id task_id n (d + 2)) there
          (subst (λ n. Both (God.lock (God.lock g id).0 task_id).0 id task_id (c + 1 + 1) n) there'
            l.2) in
      rw (sched, task)
        (remove_result-Counted (God.lock (God.lock g id).0 task_id).0 id task_id sched_id c d
          (ops.remove s (God.lock (God.lock g id).0 task_id).1) b' more more')
