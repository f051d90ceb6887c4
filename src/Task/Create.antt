-- ===== src/Task/Create.antt =====
-- A new task of prs/task.c is found by its name.
use prs.Base.{ℕ, ◌+◌, ◌≡◌, word, some, List, update, ◌&&◌}
use prs.Base.Result.{Result}
use prs.God
use prs.God.{God}
use prs.Name
use prs.Name.{Name}
use prs.Task
use prs.Task.Lifecycle.{Object, World, Env, Memory, create, find}

-- What the creation of a task leaves: the task is found by its name.
pub record Creates {D : Type 0} (env : Env D) (w : World D) (m : Memory) (ops_index : ℕ)
    (name : List ℕ) (prio id : ℕ) : Type 0 where
  pub left : World D
  pub creates : create env w m ops_index name prio ≡ some (left, m.task)
  pub finds : find env left name ≡ (left, id)
  pub priority : (left.task m.task).prio ≡ prio

module _ {D : Type 0} (env : Env D) (w : World D) (m : Memory) (ops_index : ℕ) (name : List ℕ)
    (prio : ℕ) where
  abbrev pub god : God
  god = (God.alloc_and_lock w.god m.task ops_index).0

  abbrev pub id : ℕ
  id = (God.alloc_and_lock w.god m.task ops_index).1

  -- The structure behind the allocations.
  abbrev pub made : Object
  made = record {
    id = id;
    prio = 0;
    stack = m.stack;
    context = m.stack && m.context;
    msgq = m.stack && m.context && m.msgq;
    sched_id = 0;
    proc_id = 0;
    state = 0;
  }

  -- The first token of a task.
  abbrev pub started : ℕ
  started =
      Task.set_token Task.stopped (Task.get_cause_of 0)
        (word (Task.get_count_of 0 + Task.count_increment))

  abbrev pub memory : ℕ → List ℕ
  memory = update w.memory (m.task + w.names.string_offset) name
