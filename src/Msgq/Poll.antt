-- ===== src/Msgq/Poll.antt =====
-- Receives of prs/msgq.c that do not wait.
use prs.Base.{ℕ, suc, ◌≡◌, refl, Bool, true, Option, none, some}
use prs.Base.Partial.{◌>>=◌}
use prs.Chain.Seg.{without}
use prs.Timer.{Timer}
use prs.Msgq.{Msgq, search}
use prs.Msgq.Search.{first_passing, search_loop-first}
use prs.Msgq.Receive.{Receiver, Environment, set_msgq, taken, recv_loop, recv_internal}

-- The queue behind the receive of a message, or of none.
abbrev pub received : Msgq → Option ℕ → Msgq
received q none = q
received q (some msg) = record q { queue = without msg q.queue }

-- Either a message is found, or the timeout is 0.
abbrev pub MustNotWait : Option ℕ → (use_timeout : Bool) → (timeout : ℕ) → Type 0
MustNotWait none use_timeout timeout = (use_timeout ≡ true) × (timeout ≡ 0)
MustNotWait (some msg) use_timeout timeout = Unit

loop-now :
    (fuel : ℕ) (env : Environment) (function : Option (ℕ → Bool)) (use_timeout : Bool)
    (s : Receiver) (found : Option ℕ)
    → MustNotWait found use_timeout s.wait_left
    → (recv_loop (suc fuel) env function use_timeout (s, found) >>= taken use_timeout)
      ≡ some (set_msgq s (received s.msgq found), found)
unfolding recv_loop
loop-now fuel env function use_timeout s none now = rw (now.0, now.1) refl
loop-now fuel env function use_timeout s (some msg) now = refl

-- A receive that finds a message that passes its function, or whose timeout is 0, ends without waiting:
-- it returns the oldest message that passes, or null where none does, takes that message and no other
-- out of the queue, and changes nothing else of the queue, its filters, the tasks and the timer.
pub recv_internal-now :
    (fuel : ℕ) (env : Environment) (function : Option (ℕ → Bool)) (use_timeout : Bool) (timeout : ℕ)
    (q : Msgq) (t : Timer)
    → let msg = first_passing function q.queue in
      MustNotWait msg use_timeout timeout
      → (s : Receiver) × (recv_internal (suc fuel) env function use_timeout timeout q t
          ≡ some (s, msg))
        × (s.msgq ≡ received q msg)
        × (s.timer ≡ t)
unfolding recv_internal search
recv_internal-now fuel env function use_timeout timeout q t now =
    let (found, hint) = search function q.queue 0 in
    let s : Receiver = record { msgq = q; timer = t; hint = hint; wait_left = timeout } in
    let msg = first_passing function q.queue in
    let same : found ≡ msg = search_loop-first function q.queue 0 _ in
    (
      set_msgq s (received q msg),
      rw same (loop-now fuel env function use_timeout s msg now),
      refl,
      refl,
    )
