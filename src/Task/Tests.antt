-- ===== src/Task/Tests.antt =====
-- Each theorem on the token of prs/task.c at an input.
use prs.Base.{
  inr, ℕ, ◌*◌, ◌^◌, ◌<◌, ◌≡◌, ◌≢◌, refl, true, false, arith, none, some, List, [], ◌∷◌, ◌==◌, ltb,
  if◌then◌else◌, update, bit_or,
}
use prs.Base.Result.{Result, ok}
use prs.God
use prs.God.{God, Ops}
use prs.God.Header.{
  lock_next, unlock_next, test_flag, is_free, reserved_header, used_header, get_id, set_id,
  header_reserved, header_used,
}
use prs.God.Fields.{Fields, Fits, fields, live, encode}
use prs.Name
use prs.Name.{Name, free_loop}
use prs.Name.Laws.{Settled, count_of}
use prs.Base.Scan.{scan}
use prs.Task.Lifecycle.{World, Env, Memory, destroy}
use prs.Task.Create
use prs.Task.Destroy.{destroy-again}
use prs.Task.{ready, running, blocked, Task, unblock}
use prs.Task.Token.{token_of}
use prs.Task.Laws.{Has, put, block-fields, unblock-current, Step, stale-unblock}

-- Running, last unblocked by 7, after three changes.
abbrev task : Task
task = record { id = 9; state = token_of running 7 (3 * 2 ^ 12) }

task-Has : Has task running 7 (3 * 2 ^ 12)
task-Has = record {
  state_fits = omega arith;
  cause_fits = omega arith;
  count_fits = omega arith;
  token = refl;
}

abbrev blocked_task : Task
blocked_task = put task blocked 0 (4 * 2 ^ 12)

abbrev ready_task : Task
ready_task = put task ready 1 (5 * 2 ^ 12)

blocked_task-Has : Has blocked_task blocked 0 (4 * 2 ^ 12)
blocked_task-Has = record {
  state_fits = omega arith;
  cause_fits = omega arith;
  count_fits = omega arith;
  token = refl;
}

-- A second source that unblocks the task comes too late.
stale-unblock_example : unblock false ready_task blocked_task.state 2 ≡ (ready_task, false, false)
stale-unblock_example =
    stale-unblock task blocked_task ready_task running 7 (3 * 2 ^ 12) 1 blocked_task.state task-Has
      (block-fields task-Has) (omega arith) (omega arith)
      (
        ready_task,
        Step.unblocks false true blocked_task.state 1 (omega arith)
            (unblock-current blocked_task-Has false 1 (omega arith)).0,
        refl,
      )
      false 2

abbrev quiet : Ops
quiet = record { destroy_of = λ _. none; free_of = λ _. none }

-- Task 1 at address 8, with the name "a"; the service, task 2 at address 32, with the name "s"; and
-- processes 3 and 4 at addresses 64 and 96. Each has two references.
abbrev four : God
four = record {
  header = λ e. if ltb e 5 then encode (live e 2) else 0;
  object = λ e. if e == 1 then 8 else (if e == 2 then 32 else (if e == 3 then 64 else 96));
  ops = λ _. 0;
  max_entries = 8;
  max_entries_mask = 7;
  write_index = 5;
}

abbrev strings : ℕ → List ℕ
strings p = if p == 12 then 97 ∷ [] else 115 ∷ []

-- The task is in this process.
abbrev world : (proc_id : ℕ) → World Unit
world proc_id = record {
  god = four;
  names = record { max_entries = 64; string_offset = 4; entries = λ _. 1 ∷ 2 ∷ [] };
  memory = strings;
  task = λ a. record {
    id = if a == 8 then 1 else 2;
    prio = 0;
    stack = true;
    context = true;
    msgq = true;
    sched_id = 0;
    proc_id = proc_id;
    state = 0;
  };
  objects = λ p. if p == 96 then 1 ∷ [] else [];
  unregs = [];
  sched_data = tt;
}

-- The service runs.
abbrev env : Env Unit
env = record {
  ops = quiet;
  sched_ops = record {
    add = λ d task. (d, ok);
    remove = λ d task. (d, ok);
    ready = λ d task. (d, ok);
  };
  proc_svc_name = 115 ∷ [];
  current = 32;
}

abbrev after_free : Name × God × Result
after_free = Name.free quiet strings (world 0).names four 1

abbrev left : World Unit
left = record (world 0) { names = after_free.0; god = God.unlock quiet after_free.1 1 }

destroy-again_example :
    destroy env left 8
    ≡ some (record left {
      god =
          if (God.lock left.god 1).1 == 0
          then (God.lock left.god 1).0
          else God.unlock quiet (God.lock left.god 1).0 1;
    })
unfolding destroy Name.free Name.with_list Name.get_key Name.get_entry free_loop count_of God.lock
    God.lock_entry God.object_of God.get_entry God.unlock God.release God.free lock_next unlock_next
    test_flag
destroy-again_example =
    destroy-again env (world 0) left left 8 (omega arith) (omega arith) (omega arith) refl refl refl
      (λ locked. refl)

-- The directory as `prs_god_create` leaves it, and no worker.
abbrev empty_world : World Unit
empty_world = record (world 0) {
  god = record {
    header = update (λ _. 0) 0 (bit_or header_reserved header_used);
    object = λ _. 0;
    ops = λ _. 0;
    max_entries = 8;
    max_entries_mask = 7;
    write_index = 1;
  };
  names = record { max_entries = 64; string_offset = 4; entries = λ _. 0 ∷ [] };
  memory = λ _. [];
}

created : God.create 8 true true ≡ inr empty_world.god
unfolding God.create
created = refl

abbrev no_env : Env Unit
no_env = record env { current = 0 }

abbrev all_memory : Memory
all_memory = record { task = 8; stack = true; context = true; msgq = true }

abbrev first_at : ℕ → Fields
first_at e =
    if e == 1
    then live 1 1
    else (if e == 0 then fields 0 true true false 0 else fields 0 false false false 0)

first_at-Fits : (e : ℕ) → Fits (first_at e)
first_at-Fits e = record { id_fits = ground arith; refcnt_fits = ground arith }

abbrev first_god : God
first_god = Create.god no_env empty_world all_memory 0 (97 ∷ []) 5

first_at-header : (e : ℕ) → first_god.header e ≡ encode (first_at e)
unfolding God.alloc_and_lock God.take_index God.publish God.can_take God.get_entry scan is_free
    reserved_header used_header test_flag get_id set_id
first_at-header e = ground arith

first_at-counted :
    (e : ℕ)
    → (first_at e).id ≢ 0
    → (first_at e).used ≡ true
    → (first_at e).mark ≡ false
    → 0 < (first_at e).refcnt
first_at-counted e valid used unmarked = ground arith

first_at-object : (e : ℕ) → (first_at e).id ≢ 0 → (first_at e).used ≡ true → first_god.object e ≢ 0
unfolding God.alloc_and_lock God.take_index God.publish God.can_take God.get_entry scan is_free
    reserved_header used_header test_flag get_id set_id
first_at-object e valid used = ground arith

abbrev first_god-Settled : Settled first_god
first_god-Settled = record {
  at = first_at;
  fits = first_at-Fits;
  header = first_at-header;
  counted = first_at-counted;
  object = first_at-object;
}
