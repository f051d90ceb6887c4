-- ===== src/Msgq/Receive.antt =====
-- The receive functions of prs/msgq.c. The four of them are `recv_internal` with or without a filter function,
-- and with or without a timeout. What other workers, the scheduler and the clock do comes from the
-- environment. `none` also stands for a loop that has not ended when its fuel is used up.
use prs.Base.{
  ℕ, zero, suc, ◌+◌, ◌-◌, ◌^◌, Bool, true, false, not, ◌&&◌, Option, none, some, ◌==◌, leb, ltb,
  if◌then◌else◌,
}
use prs.Base.Partial.{◌>>=◌}
use prs.Chain.Seg.{without}
use prs.Task
use prs.Timer
use prs.Timer.{Timer, ticks}
use prs.Msgq.{
  Msgq, event_type_send, event_type_timeout, search, filter_create, alloc_event, free_event,
  filter_set, filter_reset,
}

-- What the function reads and changes: its queue, the timer, and its variables.
pub record Receiver : Type 0 where
  pub msgq : Msgq
  pub timer : Timer
  pub hint : ℕ
  pub wait_left : ℕ

-- The current task, what `malloc` returns for the filter and for the event, what `prs_clock_get` returns,
-- and the queue and the timer once the task is scheduled again.
pub record Environment : Type 0 where
  pub task_id : ℕ
  pub filter_at : Receiver → ℕ
  pub event_at : Receiver → ℕ
  pub clock_get : Receiver → ℕ
  pub schedule : Msgq → Timer → Msgq × Timer

abbrev pub set_msgq : Receiver → Msgq → Receiver
set_msgq s q = record s { msgq = q }

abbrev pub scheduled : Environment → Receiver → Receiver
scheduled env s = let (q, t) = env.schedule s.msgq s.timer in record s { msgq = q; timer = t }

abbrev pub searched : Option (ℕ → Bool) → Receiver → Receiver × Option ℕ
searched function s =
    let (msg, hint) = search function s.msgq.queue s.hint in (record s { hint = hint }, msg)

-- What is left of the timeout behind a wait, and the timer without the entry.
abbrev pub timed : Environment → (timer_entry : ℕ) → Receiver → Receiver
timed env timer_entry s =
    let diff = ticks (env.clock_get s + 2 ^ 32 - Timer.get_start s.timer timer_entry) in
    record s {
      wait_left = if leb s.wait_left diff then 0 else s.wait_left - diff;
      timer = Timer.cancel s.timer timer_entry;
    }

unfoldable pub wait :
    Environment → (event : ℕ) → (timeout_active : Bool) → Receiver → Option Receiver
wait env event timeout_active s =
    if timeout_active
    then (Timer.queue s.timer (env.clock_get s) event event_type_timeout s.wait_left >>= λ r.
        some (timed env r.1 (scheduled env (record s { timer = r.0 }))))
    else some (scheduled env s)

-- With the message comes `msg_expected`.
abbrev pub by_cause :
    Option (ℕ → Bool) → Receiver → (event_type : ℕ) → Option (Receiver × Option ℕ × Bool)
by_cause function s event_type =
    let (s', msg) = searched function s in
    if event_type == event_type_send
    then some (s', msg, true)
    else (if event_type == event_type_timeout then some (s, none, false) else none)

-- What follows the second search.
unfoldable pub await :
    Environment
    → Option (ℕ → Bool)
    → (filter event : ℕ) → (timeout_active : Bool) → Receiver × Option ℕ
    → Option (Receiver × Option ℕ × Bool)
unfolding wait
await env function filter event timeout_active (s, some msg) = do
  (q, already_signaled) ← free_event s.msgq filter event
  let freed = set_msgq s q
  some (if already_signaled then scheduled env freed else freed, some msg, true)
await env function filter event timeout_active (s, none) = do
  s1 ← wait env event timeout_active s
  task ← s1.msgq.world.tasks env.task_id
  (s2, msg, msg_expected) ← by_cause function s1 (Task.get_last_unblock_cause task)
  (q, _) ← free_event s2.msgq filter event
  some (set_msgq s2 q, msg, msg_expected)

-- One round of the loop of `prs_msgq_recv_internal`.
unfoldable pub round :
    Environment
    → Option (ℕ → Bool)
    → (timeout_active : Bool) → Receiver
    → Option (Receiver × Option ℕ × Bool)
unfolding await
round env function timeout_active s = do
  let filter = env.filter_at s
  let event = env.event_at s
  created ← filter_create s.msgq filter function
  task ← created.world.tasks env.task_id
  with_event ← alloc_event created filter event env.task_id task (if timeout_active then 2 else 1)
  q ← filter_set with_event filter
  (s', msg, msg_expected) ←
      await env function filter event timeout_active (searched function (set_msgq s q))
  q' ← filter_reset s'.msgq filter
  some (set_msgq s' q', msg, msg_expected)

unfoldable pub recv_loop :
    ℕ
    → Environment
    → Option (ℕ → Bool)
    → (use_timeout : Bool) → Receiver × Option ℕ
    → Option (Receiver × Option ℕ)
unfolding round
recv_loop zero env function use_timeout (s, msg) = none
recv_loop (suc fuel) env function use_timeout (s, some msg) = some (s, some msg)
recv_loop (suc fuel) env function use_timeout (s, none) =
    let timeout_active = use_timeout && ltb 0 s.wait_left in
    let next = round env function timeout_active s >>= λ r.
    let rest = recv_loop fuel env function use_timeout (r.0, r.1) in
    elim r.1 [ some msg ↦ rest | none ↦ if r.2 then rest else some (r.0, none) ] in
    if use_timeout && not timeout_active then some (s, none) else next

-- The end of the function, with its postcondition.
abbrev pub taken : (use_timeout : Bool) → Receiver × Option ℕ → Option (Receiver × Option ℕ)
taken use_timeout (s, some msg) =
    some (set_msgq s (record s.msgq { queue = without msg s.msgq.queue }), some msg)
taken use_timeout (s, none) = if use_timeout then some (s, none) else none

-- `prs_msgq_recv_internal`, which starts without a hint.
unfoldable pub recv_internal :
    ℕ
    → Environment
    → Option (ℕ → Bool)
    → (use_timeout : Bool) → (timeout : ℕ) → Msgq
    → Timer
    → Option (Receiver × Option ℕ)
unfolding recv_loop
recv_internal fuel env function use_timeout timeout q t =
    let start : Receiver = record { msgq = q; timer = t; hint = 0; wait_left = timeout } in
    recv_loop fuel env function use_timeout (searched function start) >>= taken use_timeout

unfoldable pub recv : ℕ → Environment → Msgq → Timer → Option (Receiver × Option ℕ)
recv fuel env q t = recv_internal fuel env none false 0 q t

unfoldable pub recv_timeout :
    ℕ → Environment → (timeout : ℕ) → Msgq → Timer → Option (Receiver × Option ℕ)
recv_timeout fuel env timeout q t = recv_internal fuel env none true timeout q t

unfoldable pub recv_filter :
    ℕ → Environment → Option (ℕ → Bool) → Msgq → Timer → Option (Receiver × Option ℕ)
recv_filter fuel env function q t = recv_internal fuel env function false 0 q t

unfoldable pub recv_filter_timeout :
    ℕ
    → Environment
    → Option (ℕ → Bool)
    → (timeout : ℕ) → Msgq
    → Timer
    → Option (Receiver × Option ℕ)
recv_filter_timeout fuel env function timeout q t = recv_internal fuel env function true timeout q t
