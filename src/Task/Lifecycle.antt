-- ===== src/Task/Lifecycle.antt =====
-- The life of a task of prs/task.c: its object in the directory (prs/god.c), its name (prs/name.c), and its
-- process (prs/proc.c). A task and a process are named by their addresses. Functions run without
-- interference. `none` stands for a fatal error and for an assertion that fails.
use prs.Base.{
  ℕ, ◌+◌, ◌&&◌, Bool, Option, none, some, List, [], ◌∷◌, ◌++◌, ◌==◌, if◌then◌else◌, update,
}
use prs.Base.Partial.{◌>>=◌}
use prs.Base.Result.{Result, ok, not_found}
use prs.God
use prs.God.{God, Ops}
use prs.God.Header.{id_invalid}
use prs.Name
use prs.Name.{Name}
use prs.Proc.{register_object, unregister_object}
use prs.Sched.{is_ok}
use prs.Sched.Tasks.{SchedOps, remove_task}
use prs.Task

-- The structure of a task; `stack`, `context` and `msgq` say whether the pointers are not null.
pub record Object : Type 0 where
  pub id : ℕ
  pub prio : ℕ
  pub stack : Bool
  pub context : Bool
  pub msgq : Bool
  pub sched_id : ℕ
  pub proc_id : ℕ
  pub state : ℕ

-- The directory, the table of the names, the strings in memory, the structures of the tasks, the objects
-- of the processes, the messages to the service of the processes, and the data of the scheduler.
pub record World (D : Type 0) : Type 0 where
  pub god : God
  pub names : Name
  pub memory : ℕ → List ℕ
  pub task : ℕ → Object
  pub objects : ℕ → List ℕ
  pub unregs : List (ℕ × ℕ × ℕ)
  pub sched_data : D

-- `current` is the task that runs, 0 where there is no worker.
pub record Env (D : Type 0) : Type 0 where
  pub ops : Ops
  pub sched_ops : SchedOps D
  pub proc_svc_name : List ℕ
  pub current : ℕ

-- What the allocations return: the task, and whether the others succeed.
pub record Memory : Type 0 where
  pub task : ℕ
  pub stack : Bool
  pub context : Bool
  pub msgq : Bool

module _ {D : Type 0} (env : Env D) where
  abbrev pub set_task : World D → (task : ℕ) → Object → World D
  set_task w task x = record w { task = update w.task task x }

  abbrev pub unlock_god : World D → (id : ℕ) → World D
  unlock_god w id = record w { god = God.unlock env.ops w.god id }

  -- The message of `prs_proc_send_unreg_object`, or the call of `prs_proc_unregister_object` where the
  -- service runs, with the ID of the service.
  abbrev pub unregister_by :
      (proc proc_id task_id : ℕ) → World D → (proc_task_id : ℕ) → Option (World D)
  unregister_by proc proc_id task_id w proc_task_id =
      let (g, objects, result) = unregister_object env.ops w.god proc_id (w.objects proc) task_id in
      if proc_task_id == id_invalid
      then none
      else (if proc_task_id == (w.task env.current).id
          then some (record w { god = g; objects = update w.objects proc objects })
          else some (record w { unregs = w.unregs ++ (proc_task_id, proc_id, task_id) ∷ [] }))

  unfoldable pub unregister : (proc proc_id task_id : ℕ) → World D → Option (World D)
  unregister proc proc_id task_id w =
      let (g, proc_task_id) = Name.find env.ops w.memory w.names w.god env.proc_svc_name in
      unregister_by proc proc_id task_id (record w { god = g }) proc_task_id

  -- With the new process locked: the old one of the task is left first, if there is one.
  abbrev pub leave_proc : (proc proc_id : ℕ) → Object → World D → Option (World D)
  leave_proc proc proc_id x w =
      let left =
        unregister proc proc_id x.id w >>= λ (u : World D). some (unlock_god u x.proc_id) in
      if x.proc_id == id_invalid then some w else left

  abbrev pub enter_proc : (task proc proc_id : ℕ) → Object → World D → Option (World D × Result)
  enter_proc task proc proc_id x w =
      register_object w.god proc_id (w.objects proc) x.id >>= λ (r : God × List ℕ). some (
        set_task (record w { god = r.0; objects = update w.objects proc r.1 }) task
            (record x { proc_id = proc_id }),
        ok,
      )

  unfoldable pub set_proc : World D → (task proc_id : ℕ) → Option (World D × Result)
  set_proc w task proc_id =
      let (g, proc) = God.lock w.god proc_id in
      let x = w.task task in
      let moved =
        leave_proc proc proc_id x (record w { god = g }) >>= enter_proc task proc proc_id x in
      if proc == 0 then some (record w { god = g }, not_found) else moved

  -- A new task enters the process of the task that creates it. The result is that of
  -- `prs_task_set_proc`.
  abbrev pub inherit : World D → (task : ℕ) → Option (World D × Result)
  inherit w task =
      let proc_id = (w.task env.current).proc_id in
      if env.current == 0
      then some (w, ok)
      else (if proc_id == id_invalid then some (w, ok) else set_proc w task proc_id)

  -- The name, the priority and the state, and the entry of the name; `name` is what `prs_str_copy`
  -- leaves of the name. With the address of the task, or null.
  unfoldable pub name_task :
      World D → (task : ℕ) → (name : List ℕ) → (prio : ℕ) → Option (World D × ℕ)
  name_task w task name prio =
      let x = w.task task in
      let memory = update w.memory (task + w.names.string_offset) name in
      Task.change_state (record { id = x.id; state = x.state }) 0 Task.stopped >>= λ changed.
      let w' =
        set_task (record w { memory = memory }) task
          (record x { prio = prio; state = changed.state }) in
      let (names, g, result) = Name.alloc env.ops memory w.names w.god x.id in
      let w'' : World D = record w' { names = names; god = g } in
      if is_ok result then some (w'', task) else some (unlock_god w'' x.id, 0)

  -- The part of `prs_task_create` behind the allocations.
  abbrev pub create_named :
      (task : ℕ) → (name : List ℕ) → (prio : ℕ) → World D × Result → Option (World D × ℕ)
  create_named task name prio (w, result) =
      if is_ok result then name_task w task name prio else some (unlock_god w (w.task task).id, 0)

  -- `ops_index` stands for the pointer to the functions of a task. Of the new structure, the members that
  -- are not written yet are 0.
  unfoldable pub create :
      World D → Memory → (ops_index : ℕ) → (name : List ℕ) → (prio : ℕ) → Option (World D × ℕ)
  create w m ops_index name prio =
      let (g, id) = God.alloc_and_lock w.god m.task ops_index in
      let x : Object = record {
        id = id;
        prio = 0;
        stack = m.stack;
        context = m.stack && m.context;
        msgq = m.stack && m.context && m.msgq;
        sched_id = 0;
        proc_id = 0;
        state = 0;
      } in
      let made : World D = set_task (record w { god = g }) m.task x in
      let named = inherit made m.task >>= create_named m.task name prio in
      if m.task == 0
      then some (w, 0)
      else (if id == id_invalid
          then some (record w { god = g }, 0)
          else (if m.stack && m.context then named else some (unlock_god made id, 0)))

  abbrev pub leave_sched : (x : Object) → World D → World D
  leave_sched x w =
      let out = remove_task env.sched_ops env.ops w.god x.sched_id x.id x.sched_id w.sched_data in
      if x.sched_id == id_invalid
      then w
      else record w { god = out.god; sched_data = out.sched_data }

  -- With its process locked, which is unlocked once more for the reference of the task.
  abbrev pub leave_locked : (x : Object) → World D → God × ℕ → Option (World D)
  leave_locked x w (g, proc) =
      if proc == 0
      then none
      else unregister proc x.proc_id x.id (record w { god = g }) >>= λ (u : World D).
          some (unlock_god (unlock_god u x.proc_id) x.proc_id)

  -- Behind `prs_name_free`, where it has found the name.
  abbrev pub destroy_named : (x : Object) → World D → Option (World D)
  destroy_named x w =
      let left = leave_sched x w in
      let out =
        if x.proc_id == id_invalid
        then some left
        else leave_locked x left (God.lock left.god x.proc_id) in
      out >>= λ (u : World D). some (unlock_god u x.id)

  unfoldable pub destroy : World D → (task : ℕ) → Option (World D)
  destroy w task =
      let x = w.task task in
      let (names, g, result) = Name.free env.ops w.memory w.names w.god x.id in
      let freed : World D = record w { names = names; god = g } in
      if is_ok result then destroy_named x freed else some freed

  unfoldable pub find : World D → (name : List ℕ) → World D × ℕ
  find w name =
      let (g, id) = Name.find env.ops w.memory w.names w.god name in (record w { god = g }, id)

  -- With the address of the task.
  unfoldable pub find_and_lock : World D → (name : List ℕ) → World D × ℕ
  find_and_lock w name =
      let (g, id) = Name.find_and_lock env.ops w.memory w.names w.god name in
      (record w { god = g }, God.find g id)

  -- The result says that `prs_worker_signal` is called, for the current task; else an error is logged.
  unfoldable pub set_prio : World D → (task prio : ℕ) → Option (World D × Bool)
  set_prio w task prio =
      if env.current == 0
      then none
      else some (set_task w task (record (w.task task) { prio = prio }), task == env.current)
