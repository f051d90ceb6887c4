-- ===== src/Worker/Entry.antt =====
-- The life of a worker of prs/worker.c on its thread.
use prs.Base.{ℕ, zero, suc, Bool, true, false, ◌&&◌, Option, none, some, ◌==◌, if◌then◌else◌}
use prs.Base.Partial.{◌>>=◌}
use prs.Base.Result.{Result, ok, not_implemented, out_of_memory}
use prs.Sched.{is_ok}
use prs.God
use prs.God.{God}
use prs.Thread
use prs.Thread.{Thread}
use prs.Worker.{
  Worker, Ops, flag_interruptible, flag_stop, has_flag, prologue_flags, set_flags,
  schedule_internal, int_disable,
}

module _ {D : Type 0} where
  -- `worker` is what `malloc` returns.
  unfoldable pub create :
      God
      → (worker : ℕ) → (ops_index : ℕ) → (thread : Thread) → D
      → God × Result × Option (Worker D)
  create g worker ops_index thread userdata =
      let (g', id) = God.alloc_and_lock g worker ops_index in
      if worker == 0
      then (g, out_of_memory, none)
      else (if id == God.Header.id_invalid then (g', out_of_memory, none) else (
        g',
        ok,
        some (record {
          id = id;
          flags = 0;
          current_task_id = 0;
          current_task = 0;
          exit_context = 0;
          thread = thread;
          userdata = userdata;
        }),
      ))

  unfoldable pub destroy : Worker D → Result
  destroy w = not_implemented

  -- `run` is what the thread does.
  unfoldable pub start : (run : Thread → Thread) → (sem_post : Bool) → Worker D → Worker D × Result
  start run sem_post w =
      let (thread, result) = Thread.set_callback_params w.thread in
      let (thread', result') = Thread.start run sem_post thread in
      if is_ok result
      then (record w { flags = 0; thread = thread' }, result')
      else (record w { thread = thread }, result)

  unfoldable pub join : (waited : Thread → Thread) → Worker D → Worker D × Result
  join waited w =
      let (thread, result) = Thread.join waited w.thread in (record w { thread = thread }, result)

  -- `is_user_text` is what `prs_proc_is_user_text` says of the instruction pointer of the context, where
  -- there is one.
  unfoldable pub interruptible : Worker D → (is_user_text : Option Bool) → Bool
  interruptible w none = has_flag w.flags flag_interruptible
  interruptible w (some user_text) = has_flag w.flags flag_interruptible && user_text

  module _ (ops : Ops D) (slept : Worker D → Worker D) (id_of context_of : ℕ → ℕ) where
    -- `swapped` is the worker when the context that a swap has saved goes on.
    unfoldable pub prologue :
        ℕ → (fuel : ℕ) → (swapped : Worker D → ℕ × ℕ → Worker D) → Worker D → Option (Worker D)
    unfolding prologue_flags
    prologue zero fuel swapped w = none
    prologue (suc rounds) fuel swapped w = do
      (w', swap) ← schedule_internal ops slept id_of context_of fuel true 0 w
      let back : Worker D = elim swap [ none ↦ w' | some contexts ↦ swapped w' contexts ]
      let rest = prologue rounds fuel swapped back
      elim (prologue_flags back.flags) [ some flags ↦ some (set_flags back flags) | none ↦ rest ]

    -- With interrupts enabled and a context, the prologue is put on the stack of the task: the worker
    -- and whether it was.
    unfoldable pub interrupt_entry :
        (rounds fuel : ℕ) (swapped : Worker D → ℕ × ℕ → Worker D)
        → (context : Bool) → Worker D
        → Option (Worker D × Bool)
    unfolding int_disable prologue
    interrupt_entry rounds fuel swapped context w =
        let (w', interrupts_enabled) = int_disable w in
        let run = prologue rounds fuel swapped w' >>= λ back. some (back, false) in
        if interrupts_enabled then (if context then some (w', true) else run) else some (w', false)

    -- The assertions of `prs_worker_int_enable` around the prologue.
    unfoldable pub int_enable :
        (rounds fuel : ℕ) → (swapped : Worker D → ℕ × ℕ → Worker D) → Worker D → Option (Worker D)
    unfolding prologue
    int_enable rounds fuel swapped w =
        let enabled = prologue rounds fuel swapped w in
        if has_flag w.flags flag_interruptible then none else enabled

    -- The loop of `prs_worker_entry`: `swapped` is the worker when its exit context goes on.
    unfoldable pub entry_loop :
        ℕ → (fuel : ℕ) → (swapped : Worker D → ℕ × ℕ → Worker D) → Worker D → Option (Worker D)
    entry_loop zero fuel swapped w = none
    entry_loop (suc rounds) fuel swapped w =
        let rest = schedule_internal ops slept id_of context_of fuel false w.exit_context w >>= λ r.
        entry_loop rounds fuel swapped
          (elim r.1 [ none ↦ r.0 | some contexts ↦ swapped r.0 contexts ]) in
        if has_flag w.flags flag_stop then some w else rest

    -- `context` is what `prs_pal_context_alloc` returns.
    unfoldable pub entry :
        (rounds fuel : ℕ) (context : ℕ)
        → (swapped : Worker D → ℕ × ℕ → Worker D) → Worker D
        → Option (Worker D)
    unfolding entry_loop
    entry rounds fuel context swapped w =
        entry_loop rounds fuel swapped (record w { exit_context = context }) >>= λ left.
        some (record left { exit_context = 0 })
