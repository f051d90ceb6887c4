-- ===== src/Msgq/Wake.antt =====
-- Receives of prs/msgq.c that may wait.
use prs.Base.{
  ℕ, zero, suc, ◌≡◌, refl, subst, Bool, true, false, not, ◌&&◌, ◌==◌, ltb, if◌then◌else◌,
  Bool-cases, inl, inr, Option, none, some, List, [], ◌∷◌,
}
use prs.Base.Partial.{All, nothing, just, All-bind, All-bind_with, All-if}
use prs.Task
use prs.Timer.{Timer}
use prs.Msgq.{
  Msgq, event_type_send, event_type_timeout, passes, search, search_loop, from_hint, filter_create,
  filter_set, filter_reset, alloc_event, free_event,
}
use prs.Msgq.Receive.{
  Receiver, Environment, searched, by_cause, wait, await, round, recv_loop, taken, recv_internal,
}

module _ (function : Option (ℕ → Bool)) where
  -- Every message passes.
  abbrev Passing : Option ℕ → Type 0
  Passing msg = All (λ m. passes function m ≡ true) msg

  Passing-if :
      (b : Bool) (msg : ℕ) (rest : Option ℕ × ℕ) (hint : ℕ)
      → (b ≡ true → passes function msg ≡ true)
      → Passing rest.0
      → Passing (if b then (some msg, hint) else rest).0
  Passing-if true msg rest hint now later = just (now refl)
  Passing-if false msg rest hint now later = later

  search_loop-Passing :
      (nodes : List ℕ) (hint prev : ℕ) → Passing (search_loop function nodes hint prev).0
  unfolding search_loop
  search_loop-Passing [] hint prev = nothing
  search_loop-Passing (msg ∷ nodes) hint prev =
      Passing-if (passes function msg) msg _ hint (λ e. e) (search_loop-Passing nodes hint msg)

  search-Passing : (queue : List ℕ) (hint : ℕ) → Passing (search function queue hint).0
  unfolding search
  search-Passing queue hint = elim (Bool-cases (hint == 0)) [
    | inl e ↦ rw e (search_loop-Passing queue hint _)
    | inr e ↦ rw e (search_loop-Passing (from_hint hint queue) hint hint)
  ]

  abbrev Found : Receiver × Option ℕ × Bool → Type 0
  Found r = Passing r.1

  by_cause-Found : (s : Receiver) (event_type : ℕ) → All Found (by_cause function s event_type)
  by_cause-Found s event_type =
      All-if Found (event_type == event_type_send) _ _
        (λ e. just (search-Passing s.msgq.queue s.hint))
        (λ e.
          All-if Found (event_type == event_type_timeout) _ _ (λ e. just nothing) (λ e. nothing))

  module _ (env : Environment) where
    await-Found :
        (filter event : ℕ) (timeout_active : Bool) (s : Receiver) (msg : Option ℕ)
        → Passing msg
        → All Found (await env function filter event timeout_active (s, msg))
    unfolding await
    await-Found filter event timeout_active s (some msg) passing =
        All-bind Found (free_event s.msgq filter event) _ (λ freed. just passing)
    await-Found filter event timeout_active s none passing =
        All-bind Found (wait env event timeout_active s) _ (λ s1.
          All-bind Found (s1.msgq.world.tasks env.task_id) _ (λ task.
            let cause = Task.get_last_unblock_cause task in
            All-bind_with Found Found (by_cause function s1 cause) _ (by_cause-Found s1 cause)
              (λ r found.
                All-bind Found (free_event r.0.msgq filter event) _ (λ freed. just found))))

    round-Found :
        (timeout_active : Bool) (s : Receiver) → All Found (round env function timeout_active s)
    unfolding round
    round-Found timeout_active s =
        let filter = env.filter_at s in
        let event = env.event_at s in
        let sources : ℕ = if timeout_active then 2 else 1 in
        All-bind Found (filter_create s.msgq filter function) _ (λ created.
          All-bind Found (created.world.tasks env.task_id) _ (λ task.
            All-bind Found (alloc_event created filter event env.task_id task sources) _ (λ armed.
              All-bind Found (filter_set armed filter) _ (λ q.
                let again = searched function (record s { msgq = q }) in
                All-bind_with Found Found (await env function filter event timeout_active again) _
                  (await-Found filter event timeout_active again.0 again.1
                    (search-Passing q.queue s.hint))
                  (λ r found.
                    All-bind Found (filter_reset r.0.msgq filter) _ (λ q'. just found))))))

    module _ (use_timeout : Bool) where
      abbrev Received : Receiver × Option ℕ → Type 0
      Received r = Passing r.1

      goes_on :
          (s : Receiver) (msg : Option ℕ) (expected : Bool) (rest : Option (Receiver × Option ℕ))
          → All Received rest
          → All Received
              (elim msg [ some m ↦ rest | none ↦ if expected then rest else some (s, none) ])
      goes_on s none true rest later = later
      goes_on s none false rest later = just nothing
      goes_on s (some m) expected rest later = later

      recv_loop-Received :
          (fuel : ℕ) (s : Receiver) (msg : Option ℕ)
          → Passing msg
          → All Received (recv_loop fuel env function use_timeout (s, msg))
      unfolding recv_loop
      recv_loop-Received zero s msg passing = nothing
      recv_loop-Received (suc fuel) s (some msg) passing = just passing
      recv_loop-Received (suc fuel) s none passing =
          All-if Received (use_timeout && not (use_timeout && ltb 0 s.wait_left)) _ _
            (λ e. just nothing)
            (λ e.
              All-bind_with Found Received _ _ (round-Found _ s)
                (λ r found. goes_on r.0 r.1 r.2 _ (recv_loop-Received fuel r.0 r.1 found)))

      taken-Received :
          (s : Receiver) (msg : Option ℕ) → Passing msg → All Received (taken use_timeout (s, msg))
      taken-Received s none passing =
          All-if Received use_timeout _ _ (λ e. just nothing) (λ e. nothing)
      taken-Received s (some msg) passing = just passing

      recv_internal-Received :
          (fuel timeout : ℕ) (q : Msgq) (t : Timer)
          → All Received (recv_internal fuel env function use_timeout timeout q t)
      unfolding recv_internal
      recv_internal-Received fuel timeout q t =
          let start : Receiver = record { msgq = q; timer = t; hint = 0; wait_left = timeout } in
          let (s, msg) = searched function start in
          All-bind_with Received Received (recv_loop fuel env function use_timeout (s, msg)) _
            (recv_loop-Received fuel s msg (search-Passing q.queue 0))
            (λ r received. taken-Received r.0 r.1 received)

All-value : {A : Type 0} (P : A → Type 0) (a : A) → All P (some a) → P a
All-value P a (just p) = p

-- However often a receive waits, whatever the other workers and the scheduler do meanwhile, and whether
-- it is woken by a message or by its timeout: a message that it returns passes its function.
pub recv_internal-passes :
    (fuel : ℕ) (env : Environment) (function : Option (ℕ → Bool)) (use_timeout : Bool) (timeout : ℕ)
    (q : Msgq) (t : Timer) (s : Receiver) (msg : ℕ)
    → recv_internal fuel env function use_timeout timeout q t ≡ some (s, some msg)
    → passes function msg ≡ true
recv_internal-passes fuel env function use_timeout timeout q t s msg run = All-value _ msg (
    All-value (Received function env use_timeout) (s, some msg)
      (subst (All (Received function env use_timeout)) run
        (recv_internal-Received function env use_timeout fuel timeout q t)))
