-- ===== src/Swprio/Preempt.antt =====
-- `prs_sched_swprio_get_next` where the current task loses the processor.
use prs.Base.{
  ℕ, ◌<◌, ◌≡◌, ◌≢◌, refl, ◌∙◌, ap, sym, subst, test_self, Bool-cases, inl, inr, true, false, not,
  ◌&&◌, some, List, [], ◌∷◌, ◌++◌, arith, ◌==◌, ltb,
}
use prs.Chain.Seg.{has}
use prs.Task.{ready, running, get_state}
use prs.Task.Token.{get_state-token}
use prs.Task.Laws.{Has, next_count}
use prs.Swprio.{Swprio, max_task_prio, is_empty, enqueue, take, preempt, get_next}
use prs.Swprio.Queue.{Masked}
use prs.Swprio.Laws.{
  with_state, First, keeps, set_state-fields, running-tasks, not_same, take-Switched, search-First,
  choose-preempt, get_next_lem,
}

preempt_lem :
    (r : Swprio) (current p node ca co : ℕ)
    → Has (r.tasks current).task running ca co
    → preempt r current p node
      ≡ take (with_state (enqueue r (r.tasks current).prio current) current ready ca co) p node
unfolding preempt enqueue
preempt_lem r current p node ca co has =
    rw
      (
        preempt,
        set_state-fields (enqueue r (r.tasks current).prio current) current running ca co ready has
            (omega arith),
      )
      refl

is_empty-push : (q : List ℕ) (x : ℕ) → is_empty (q ++ x ∷ []) ≡ false
is_empty-push [] x = refl
is_empty-push (y ∷ q) x = refl

enqueue-Masked :
    (s : Swprio) (prio task new ca co : ℕ)
    → prio < max_task_prio
    → Masked s
    → Masked (with_state (enqueue s prio task) task new ca co)
unfolding enqueue
enqueue-Masked s prio task new ca co small masked = record {
  masked = λ m some_task. elim (Bool-cases (m == prio)) [
    | inl e ↦ rw e refl
    | inr e ↦ rw e (masked.masked m (rw e at some_task))
  ];
  bounded = λ m hi. rw (not_same m prio (omega (arith, hi, small))) (masked.bounded m hi);
}

-- What a task switch leaves that takes the processor from the current task, besides.
pub record Preempted (s : Swprio) (current p node : ℕ) (rest : List ℕ) (r : Swprio) : Type 0 where
  pub state : get_state (r.tasks node).task ≡ running
  pub current_state : get_state (r.tasks current).task ≡ ready
  pub queue : r.readyq p ≡ rest
  pub current_queue :
      r.readyq (s.tasks current).prio ≡ s.readyq (s.tasks current).prio ++ current ∷ []
  pub masked : Masked r

preempt-Preempted :
    (s : Swprio) (current p node ca co ca' co' : ℕ) (rest : List ℕ)
    → Masked s
    → s.readyq p ≡ node ∷ rest
    → p < (s.tasks current).prio
    → (s.tasks current).prio < max_task_prio
    → node ≢ current
    → Has (s.tasks current).task running ca' co'
    → Has (s.tasks node).task ready ca co
    → (r : Swprio) × (preempt s current p node ≡ some (r, true, node))
      × Preempted s current p node rest r
unfolding enqueue get_state
preempt-Preempted s current p node ca co ca' co' rest masked here low small ne has has' =
    let prio = (s.tasks current).prio in
    let other : (p == prio) ≡ false = not_same p prio (omega (arith, low)) in
    let waiting : Has (q.tasks node).task ready ca co = rw (not_same node current ne) has' in
    let (r, run, sw) =
      take-Switched q p node ca co rest (enqueue-Masked s prio current ready ca' co' small masked)
        (rw other here) waiting in
    (
      r,
      preempt_lem s current p node ca' co' has ∙ run,
      record {
        state = sw.state;
        current_state =
            ap (λ e. get_state e.task) (sw.tasks current (λ e. ne (sym e)))
            ∙ rw (test_self current) (get_state-token ready ca' (next_count co') (omega arith));
        queue = sw.prio_queue;
        current_queue = sw.queues prio (omega (arith, low)) ∙ rw (test_self prio) refl;
        masked = sw.masked;
      },
    )
  where
    q : Swprio
    q = with_state (enqueue s (s.tasks current).prio current) current ready ca' co'

-- With an empty remove queue and the bit of each queue that holds a task set,
-- `prs_sched_swprio_get_next` takes the processor from a running task when a task of a lower priority
-- number is ready: the current task becomes ready and goes to the end of the queue of its priority,
-- and the oldest task of the first priority whose queue holds a task runs.
pub get_next-preempts :
    (s : Swprio) (current p node ca co ca' co' : ℕ) (rest : List ℕ)
    → Masked s
    → First s p node rest
    → s.removeq ≡ []
    → keeps s current ≡ true
    → p < (s.tasks current).prio
    → (s.tasks current).prio < max_task_prio
    → node ≢ current
    → Has (s.tasks current).task running ca' co'
    → Has (s.tasks node).task ready ca co
    → (r : Swprio) × (get_next s current ≡ some (r, true, node)) × Preempted s current p node rest r
get_next-preempts s current p node ca co ca' co' rest masked first none_removed runs low small ne
      has has' =
    let (r, found, is) = search-First s p node rest masked first in
    let runs' = ap (λ b. not (current == 0) && b) (running-tasks s r current is.tasks) ∙ runs in
    let prio = ap (λ f. (f current).prio) is.tasks in
    let back = sym is.tasks in
    let (r', run, sw) =
      preempt-Preempted r current p node ca co ca' co' rest is.masked
        (ap (λ f. f p) is.readyq ∙ first.here) (subst (λ n. p < n) (sym prio) low)
        (subst (λ n. n < max_task_prio) (sym prio) small) ne
        (subst (λ f. Has (f current).task running ca' co') back has)
        (subst (λ f. Has (f node).task ready ca co) back has') in
    let low' : ltb p (r.tasks current).prio ≡ true = rw prio (less (s.tasks current).prio p low) in
    let queue =
      ap (λ n. r'.readyq n) (sym prio)
      ∙ sw.current_queue
      ∙ ap (λ n. r.readyq n ++ current ∷ []) prio
      ∙ ap (λ f. f (s.tasks current).prio ++ current ∷ []) is.readyq in
    (
      r',
      get_next_lem s r current (some (p, node)) none_removed found
          ∙ choose-preempt r current p node runs' low'
          ∙ run,
      record {
        state = sw.state;
        current_state = sw.current_state;
        queue = sw.queue;
        current_queue = queue;
        masked = sw.masked;
      },
    )
  where
    less : (a b : ℕ) → b < a → ltb b a ≡ true
    less a b h = ground arith
