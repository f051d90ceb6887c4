-- ===== src/Worker.antt =====
-- prs/worker.c: what a worker does on its thread. A task is named by its address, 0 is none; `id_of` and
-- `context_of` are the fields of its structure. A swap of register contexts is a pair: the context that is
-- saved, 0 for none, and the one that goes on. Each function runs without interference; Worker.Wakeup
-- interleaves them. `none` stands for a loop that has not ended when its fuel is used up.
pub mod Flags
pub mod Wakeup
pub mod Entry
mod Tests
use prs.Base.{
  ℕ, zero, suc, ◌+◌, ◌-◌, ◌^◌, Bool, true, false, not, ◌&&◌, Option, none, some, bit_and, bit_or,
  ◌==◌, if◌then◌else◌,
}
use prs.Base.Result.{Result, ok, already_exists, locked, not_implemented, out_of_memory}
use prs.Sched.{is_ok}
use prs.Thread
use prs.Thread.{Thread}

abbrev pub flag_interruptible : ℕ
flag_interruptible = 1

abbrev pub flag_interrupt_pending : ℕ
flag_interrupt_pending = 2

abbrev pub flag_idle : ℕ
flag_idle = 4

abbrev pub flag_stop : ℕ
flag_stop = 8

-- `~flag` of `prs_worker_flags_t`
abbrev pub complement : ℕ → ℕ
complement flag = 2 ^ 32 - 1 - flag

-- Whether `flags & flag` is not 0.
abbrev pub has_flag : (flags flag : ℕ) → Bool
has_flag flags flag = not (bit_and flags flag == 0)

-- The accesses to the flags, by what they store.
unfoldable pub add_flag : (flag flags : ℕ) → ℕ
add_flag flag flags = bit_or flags flag

unfoldable pub drop_flag : (flag flags : ℕ) → ℕ
drop_flag flag flags = bit_and flags (complement flag)

-- The compare-and-exchange of `prs_worker_idle`: `none` where it fails.
unfoldable pub idle_flags : (flags : ℕ) → Option ℕ
idle_flags flags = if flags == 0 then some (bit_or flag_idle flag_interrupt_pending) else none

-- The compare-and-exchange of `prs_worker_task_prologue`.
unfoldable pub prologue_flags : (flags : ℕ) → Option ℕ
prologue_flags flags = if flags == 0 then some flag_interruptible else none

-- What `prs_worker_schedule_internal` does with the flags that it finds.
pub data Turn : Type 0 where
  leave choose go_on : Turn

unfoldable pub turn : (flags : ℕ) → Turn
turn flags =
    if has_flag flags flag_stop
    then leave
    else (if has_flag flags flag_interrupt_pending then choose else go_on)

-- What `prs_worker_post` does with the flags before it set the pending flag, and with those before it
-- cleared the idle flag.
pub data Post : Type 0 where
  wake interrupt_thread : Post
  answer : Result → Post

unfoldable pub post_rest : (interrupt : Bool) → (flags : ℕ) → Post
post_rest interrupt flags =
    let interruptible = has_flag flags flag_interruptible in
    if interrupt
    then (if interruptible
        then (if not (has_flag flags flag_interrupt_pending)
            then interrupt_thread
            else answer already_exists)
        else answer locked)
    else answer ok

unfoldable pub post_idle : (interrupt : Bool) → (flags : ℕ) → Post
unfolding post_rest
post_idle interrupt flags = if has_flag flags flag_idle then wake else post_rest interrupt flags

-- With the data of the scheduler, and its function that finds the next task.
pub record Worker (D : Type 0) : Type 0 where
  pub id : ℕ
  pub flags : ℕ
  pub current_task_id : ℕ
  pub current_task : ℕ
  pub exit_context : ℕ
  pub thread : Thread
  pub userdata : D

pub record Ops (D : Type 0) : Type 0 where
  pub get_next : D → (prev_task : ℕ) → D × ℕ × Bool

-- What the calls of the operating system answer.
pub record Os : Type 0 where
  pub sem_post : Bool
  pub esrch : ℕ
  pub kill_error : ℕ

abbrev pub Swap : Type 0
Swap = Option (ℕ × ℕ)

module _ {D : Type 0} where
  abbrev pub set_flags : Worker D → ℕ → Worker D
  set_flags w flags = record w { flags = flags }

  abbrev pub set_current_task : (id_of : ℕ → ℕ) → Worker D → (task : ℕ) → Worker D
  set_current_task id_of w task = record w {
    current_task = task;
    current_task_id = if task == 0 then 0 else id_of task;
  }

  -- `slept` is the worker once its thread is resumed.
  unfoldable pub idle : (slept : Worker D → Worker D) → Worker D → Worker D
  unfolding idle_flags
  idle slept w = elim (idle_flags w.flags) [
    | none ↦ w
    | some new_flags ↦ slept (set_flags w new_flags)
  ]

  module _ (ops : Ops D) (slept : Worker D → Worker D) (id_of context_of : ℕ → ℕ) where
    -- `rest` is the next round, behind `prs_worker_idle`.
    abbrev pub chosen :
        (rest : Worker D → Option (Worker D × Swap))
        → (prev_task save_context : ℕ) → Worker D
        → D × ℕ × Bool
        → Option (Worker D × Swap)
    chosen rest prev_task save_context w (userdata, next_task, switch_to_next) =
        let w' : Worker D = record w { userdata = userdata } in
        let swap =
          if prev_task == next_task then none else some (save_context, context_of next_task) in
        if not (next_task == 0)
        then some (set_current_task id_of w' next_task, swap)
        else (if switch_to_next then rest w' else some (w', some (0, w.exit_context)))

    unfoldable pub schedule_loop :
        ℕ → (check : Bool) → (exit_context prev_context : ℕ) → Worker D → Option (Worker D × Swap)
    schedule_loop zero check exit_context prev_context w = none
    schedule_loop (suc fuel) check exit_context prev_context w =
        let flags = if check then w.flags else flag_interrupt_pending in
        let w1 = if check then set_flags w (drop_flag flag_interrupt_pending w.flags) else w in
        let prev_task = w1.current_task in
        let prev_context' = if prev_task == 0 then prev_context else context_of prev_task in
        let save_context = if prev_context' == 0 then exit_context else prev_context' in
        let rest =
          λ (x : Worker D). schedule_loop fuel true exit_context prev_context' (idle slept x) in
        elim (turn flags) [
          | leave ↦ some (w1, if exit_context == 0 then some (0, w.exit_context) else none)
          | choose ↦
              chosen rest prev_task save_context (set_current_task id_of w1 0)
                (ops.get_next w1.userdata prev_task)
          | go_on ↦ some (w1, none)
        ]

    unfoldable pub schedule_internal :
        ℕ → (check_flags : Bool) → (exit_context : ℕ) → Worker D → Option (Worker D × Swap)
    unfolding schedule_loop
    schedule_internal fuel check_flags exit_context w =
        schedule_loop fuel check_flags exit_context 0 w

  unfoldable pub int_disable : Worker D → Worker D × Bool
  unfolding drop_flag
  int_disable w =
      (set_flags w (drop_flag flag_interruptible w.flags), has_flag w.flags flag_interruptible)

  unfoldable pub int_enabled : Worker D → Bool
  int_enabled w = has_flag w.flags flag_interruptible

  unfoldable pub posted : Os → Worker D → Post → Worker D × Result
  unfolding Thread.resume Thread.interrupt
  posted os w wake =
      let (thread, result) = Thread.resume os.sem_post w.thread in
      (record w { thread = thread }, result)
  posted os w interrupt_thread = (w, Thread.interrupt os.esrch os.kill_error)
  posted os w (answer result) = (w, result)

  unfoldable pub post : Os → (interrupt : Bool) → Worker D → Worker D × Result
  unfolding add_flag drop_flag post_idle post_rest posted
  post os interrupt w =
      let pending = set_flags w (add_flag flag_interrupt_pending w.flags) in
      let woken = set_flags pending (drop_flag flag_idle pending.flags) in
      if has_flag w.flags flag_idle
      then posted os woken (post_idle interrupt pending.flags)
      else posted os pending (post_rest interrupt w.flags)

  -- `prs_worker_interrupt` and `prs_worker_signal`
  unfoldable pub interrupt : Os → Worker D → Worker D × Result
  interrupt os w = post os true w

  unfoldable pub signal : Os → Worker D → Worker D × Result
  signal os w = post os false w

  -- A worker stops itself by a swap to its exit context; another one is interrupted and waited for.
  unfoldable pub stop :
      Os → (current : Bool) → (waited : Thread → Thread) → Worker D → Worker D × Result × Swap
  unfolding add_flag interrupt Thread.join
  stop os current waited w =
      let stopping = set_flags w (add_flag flag_stop w.flags) in
      let (w', result) = interrupt os stopping in
      let (thread, joined) = Thread.join waited w'.thread in
      if current
      then (stopping, ok, some (0, w.exit_context))
      else (if is_ok result
          then (record w' { thread = thread }, joined, none)
          else (w', result, none))
