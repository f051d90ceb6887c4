-- ===== src/Sched/Tasks.antt =====
-- prs/sched.c: the tasks of a scheduler, which are held in the object directory. The operations that a
-- scheduler is made of (`struct prs_sched_ops`) are a record that the functions take, on the data `D`
-- of the scheduler and the address of a task; none of them changes the directory.
use prs.Base.{ℕ, Option, none, some, ◌==◌, if◌then◌else◌}
use prs.Base.Result.{Result, ok, unknown}
use prs.God
use prs.God.{God}
use prs.Sched.{is_ok}

pub record SchedOps (D : Type 0) : Type 0 where
  pub add : D → (task : ℕ) → D × Result
  pub remove : D → (task : ℕ) → D × Result
  pub ready : D → (task : ℕ) → D × Result

-- What a function has done to the directory, to the data of the scheduler, and to `task->sched_id`,
-- and its result.
pub record Outcome (D : Type 0) : Type 0 where
  pub god : God
  pub sched_data : D
  pub sched_id : ℕ
  pub result : Result

abbrev pub outcome : {D : Type 0} → God → D → ℕ → Result → Outcome D
outcome g d s r = record { god = g; sched_data = d; sched_id = s; result = r }

module _ {D : Type 0} (ops : SchedOps D) (o : God.Ops) where
  -- The label `cleanup` with both objects locked.
  abbrev pub unlock_both : God → (id task_id : ℕ) → God
  unlock_both g id task_id = God.unlock o (God.unlock o g task_id) id

  -- With the scheduler and the task locked, what `ops.add` yields.
  abbrev pub add_result : God → (id task_id sched_id : ℕ) → D × Result → Outcome D
  add_result g id task_id sched_id (d, result) =
      if is_ok result
      then outcome g d id ok
      else outcome (unlock_both g id task_id) d sched_id result

  abbrev pub add_locked : (id task_id sched_id : ℕ) → D → God × ℕ → Outcome D
  add_locked id task_id sched_id d (g, task) =
      if task == 0
      then outcome (God.unlock o g id) d sched_id unknown
      else add_result g id task_id sched_id (ops.add d task)

  abbrev pub add_found : (id task_id sched_id : ℕ) → D → God × ℕ → Outcome D
  add_found id task_id sched_id d (g, sched) =
      if sched == 0
      then outcome g d sched_id unknown
      else add_locked id task_id sched_id d (God.lock g task_id)

  -- `sched_id` is the field of the task.
  unfoldable pub add_task : God → (id task_id sched_id : ℕ) → D → Outcome D
  add_task g id task_id sched_id d = add_found id task_id sched_id d (God.lock g id)

  abbrev pub remove_result : God → (id task_id sched_id : ℕ) → D × Result → Outcome D
  remove_result g id task_id sched_id (d, result) =
      if is_ok result
      then outcome (unlock_both (unlock_both g id task_id) id task_id) d sched_id ok
      else outcome (unlock_both g id task_id) d sched_id result

  abbrev pub remove_locked : (id task_id sched_id : ℕ) → D → God × ℕ → Outcome D
  remove_locked id task_id sched_id d (g, task) =
      if task == 0
      then outcome (God.unlock o g id) d sched_id unknown
      else remove_result g id task_id sched_id (ops.remove d task)

  abbrev pub remove_found : (id task_id sched_id : ℕ) → D → God × ℕ → Outcome D
  remove_found id task_id sched_id d (g, sched) =
      if sched == 0
      then outcome g d sched_id unknown
      else remove_locked id task_id sched_id d (God.lock g task_id)

  unfoldable pub remove_task : God → (id task_id sched_id : ℕ) → D → Outcome D
  remove_task g id task_id sched_id d = remove_found id task_id sched_id d (God.lock g id)

  -- `none` of the scheduler is an assertion that fails.
  abbrev pub ready_found : (sched_id task : ℕ) → D → God × ℕ → Option (God × D × Result)
  ready_found sched_id task d (g, sched) =
      let (d', result) = ops.ready d task in
      if sched == 0 then none else some (God.unlock o g sched_id, d', result)

  unfoldable pub ready : God → (sched_id task : ℕ) → D → Option (God × D × Result)
  ready g sched_id task d = ready_found sched_id task d (God.lock g sched_id)
