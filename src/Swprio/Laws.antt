-- ===== src/Swprio/Laws.antt =====
-- The scheduler of prs/sched/swprio.c picks the oldest task of the first priority.
use prs.Base.{
  ℕ, ◌^◌, ◌≤◌, ◌<◌, ◌≡◌, ◌≢◌, refl, ◌∙◌, ap, sym, subst, eq_of_test, test_self, Bool-cases, inl,
  inr, Bool, true, false, not, ◌&&◌, Option, none, some, List, [], ◌∷◌, arith, ◌==◌, ltb,
  if◌then◌else◌, update,
}
use prs.Chain.Seg.{has, without}
use prs.Task.{ready, running, get_state}
use prs.Task.Token.{get_state-token}
use prs.Task.Laws.{Has, put, next_count, change_state-fields}
use prs.Swprio.{
  Swprio, max_task_prio, set_state, is_empty, purge, pick, take, is_running, preempt, choose,
  next_of_purged, get_next,
}
use prs.Swprio.Queue.{Masked, Searched, pick-first, pick-none}

abbrev pub with_state : Swprio → (task new ca co : ℕ) → Swprio
with_state s task new ca co = record s {
  tasks =
      update s.tasks task
        (record (s.tasks task) { task = put (s.tasks task).task new ca (next_count co) });
}

pub set_state-fields :
    (s : Swprio) (task st ca co new : ℕ)
    → Has (s.tasks task).task st ca co
    → new < 2 ^ 4
    → set_state s task st new ≡ some (with_state s task new ca co)
unfolding set_state
set_state-fields s task st ca co new has fits =
    rw (set_state, change_state-fields has st new fits, test_self st) refl

-- The node and what is behind it are the queue of the priority, and no queue before it holds a task.
pub record First (s : Swprio) (p node : ℕ) (rest : List ℕ) : Type 0 where
  pub prio : p < max_task_prio
  pub here : s.readyq p ≡ node ∷ rest
  pub below : (m : ℕ) → m < p → is_empty (s.readyq m) ≡ true

without_first : (x : ℕ) (xs : List ℕ) → without x (x ∷ xs) ≡ xs
without_first x xs = rw (test_self x) refl

pub get_next_lem :
    (s r : Swprio) (current : ℕ) (found : Option (ℕ × ℕ))
    → s.removeq ≡ []
    → pick max_task_prio (record s { removeq = [] }) s.ready_mask 0 ≡ (r, found)
    → get_next s current ≡ choose r current found
unfolding get_next purge next_of_purged
get_next_lem s r current found none_removed e = rw (get_next, none_removed, e) refl

pub running-tasks :
    (s r : Swprio) (task : ℕ) → r.tasks ≡ s.tasks → is_running r task ≡ is_running s task
unfolding is_running
running-tasks s r task e = ap (λ f. get_state (f task).task == running) e

-- What `prs_sched_swprio_get_next` leaves when the first task of a queue runs next: the task is the
-- running one, its queue has lost it, the other queues and tasks are as before, and the bit of each
-- queue that holds a task is set.
pub record Switched (s : Swprio) (p node : ℕ) (rest : List ℕ) (r : Swprio) : Type 0 where
  pub state : get_state (r.tasks node).task ≡ running
  pub prio_queue : r.readyq p ≡ rest
  pub queues : (m : ℕ) → m ≢ p → r.readyq m ≡ s.readyq m
  pub tasks : (t : ℕ) → t ≢ node → r.tasks t ≡ s.tasks t
  pub masked : Masked r

pub not_same : (a b : ℕ) → a ≢ b → (a == b) ≡ false
not_same a b ne = ground arith

pub take-Switched :
    (s : Swprio) (p node ca co : ℕ) (rest : List ℕ)
    → Masked s
    → s.readyq p ≡ node ∷ rest
    → Has (s.tasks node).task ready ca co
    → (r : Swprio) × (take s p node ≡ some (r, true, node)) × Switched s p node rest r
unfolding take get_state
take-Switched s p node ca co rest masked here has = (
  with_state popped node running ca co,
  rw (take, set_state-fields popped node ready ca co running has (omega arith)) refl,
  record {
    state = rw (test_self node) (get_state-token running ca (next_count co) (omega arith));
    prio_queue = rw (test_self p) (ap (without node) here ∙ without_first node rest);
    queues = λ m ne. rw (not_same m p ne) refl;
    tasks = λ t ne. rw (not_same t node ne) refl;
    masked = record {
      masked = λ m some_task. elim (Bool-cases (m == p)) [
        | inl e ↦ rw (eq_of_test m p e) (masked.masked p (ap is_empty here))
        | inr e ↦ masked.masked m (rw e at some_task)
      ];
      bounded = λ m hi. elim (Bool-cases (m == p)) [
        | inl e ↦ absurd (
            clash (
              sym (ap is_empty here)
              ∙ sym (ap (λ k. is_empty (s.readyq k)) (eq_of_test m p e))
              ∙ masked.bounded m hi))
        | inr e ↦ rw e (masked.bounded m hi)
      ];
    };
  },
)
  where
    clash : false ≡ true → ⊥
    clash h = cc

    popped : Swprio
    popped = record s { readyq = update s.readyq p (without node (s.readyq p)) }

-- The current task keeps the processor.
abbrev pub keeps : Swprio → (current : ℕ) → Bool
keeps s current = not (current == 0) && is_running s current

choose-take :
    (r : Swprio) (current p node : ℕ)
    → (not (current == 0) && is_running r current) ≡ false
    → choose r current (some (p, node)) ≡ take r p node
unfolding choose
choose-take r current p node idle = rw idle refl

-- The search from the state that `prs_sched_swprio_get_next` is called in.
pub search-First :
    (s : Swprio) (p node : ℕ) (rest : List ℕ)
    → Masked s
    → First s p node rest
    → (r : Swprio) × (pick max_task_prio (record s { removeq = [] }) s.ready_mask 0
        ≡ (r, some (p, node)))
      × Searched (record s { removeq = [] }) r
search-First s p node rest masked first =
    pick-first max_task_prio (record s { removeq = [] }) s.ready_mask 0 p node rest
      (record { masked = masked.masked; bounded = masked.bounded }) masked.masked (omega arith)
      (omega (arith, first.prio)) first.here (λ m a b. first.below m b)

-- With an empty remove queue, the bit of each queue that holds a task set, and no current task that
-- runs, `prs_sched_swprio_get_next` takes the oldest task of the first priority whose queue holds a
-- task, which must be ready, out of its queue and makes it the running one.
pub get_next-switches :
    (s : Swprio) (current p node ca co : ℕ) (rest : List ℕ)
    → Masked s
    → First s p node rest
    → s.removeq ≡ []
    → keeps s current ≡ false
    → Has (s.tasks node).task ready ca co
    → (r : Swprio) × (get_next s current ≡ some (r, true, node)) × Switched s p node rest r
get_next-switches s current p node ca co rest masked first none_removed idle has =
    let (r, found, is) = search-First s p node rest masked first in
    let has' = subst (λ f. Has (f node).task ready ca co) (sym is.tasks) has in
    let here = ap (λ f. f p) is.readyq ∙ first.here in
    let (r', run, sw) = take-Switched r p node ca co rest is.masked here has' in
    let idle' = ap (λ b. not (current == 0) && b) (running-tasks s r current is.tasks) ∙ idle in
    (
      r',
      get_next_lem s r current (some (p, node)) none_removed found
          ∙ choose-take r current p node idle'
          ∙ run,
      record {
        state = sw.state;
        prio_queue = sw.prio_queue;
        queues = λ m ne. sw.queues m ne ∙ ap (λ f. f m) is.readyq;
        tasks = λ t ne. sw.tasks t ne ∙ ap (λ f. f t) is.tasks;
        masked = sw.masked;
      },
    )

choose-keep :
    (r : Swprio) (current p node : ℕ)
    → (not (current == 0) && is_running r current) ≡ true
    → ltb p (r.tasks current).prio ≡ false
    → choose r current (some (p, node)) ≡ some (r, true, current)
unfolding choose
choose-keep r current p node runs low = rw (runs, low) refl

pub choose-preempt :
    (r : Swprio) (current p node : ℕ)
    → (not (current == 0) && is_running r current) ≡ true
    → ltb p (r.tasks current).prio ≡ true
    → choose r current (some (p, node)) ≡ preempt r current p node
unfolding choose
choose-preempt r current p node runs low = rw (runs, low) refl

choose-none :
    (r : Swprio) (current : ℕ)
    → choose r current none ≡ some (r, true, if keeps r current then current else 0)
unfolding choose
choose-none r current = elim (Bool-cases (keeps r current)) [
  | inl e ↦ rw e refl
  | inr e ↦ rw e refl
]

module _ (s : Swprio) (current : ℕ) (masked : Masked s) (none_removed : s.removeq ≡ []) where
  -- With an empty remove queue and the bit of each queue that holds a task set,
  -- `prs_sched_swprio_get_next` leaves a running task the processor while the first priority whose
  -- queue holds a task is not before its own; the queues and the tasks stay as they are.
  pub get_next-keeps :
      (p node : ℕ) (rest : List ℕ)
      → First s p node rest
      → keeps s current ≡ true
      → (s.tasks current).prio ≤ p
      → (r : Swprio) × (get_next s current ≡ some (r, true, current))
        × Searched (record s { removeq = [] }) r
  get_next-keeps p node rest first runs low =
      let (r, found, is) = search-First s p node rest masked first in
      let runs' = ap (λ b. not (current == 0) && b) (running-tasks s r current is.tasks) ∙ runs in
      let prio = ap (λ f. (f current).prio) is.tasks in
      let low' : ltb p (r.tasks current).prio ≡ false =
        rw prio (not_less (s.tasks current).prio p low) in
      (
        r,
        get_next_lem s r current (some (p, node)) none_removed found
            ∙ choose-keep r current p node runs' low',
        is,
      )
    where
      not_less : (a b : ℕ) → a ≤ b → ltb b a ≡ false
      not_less a b h = ground arith

  -- With no task in a queue it answers the current task if that one runs, and null if not.
  pub get_next-idle :
      ((m : ℕ) → is_empty (s.readyq m) ≡ true)
      → (r : Swprio) × (get_next s current ≡ some (r, true, if keeps s current then current else 0))
        × Searched (record s { removeq = [] }) r
  get_next-idle empty =
      let (r, found, is) =
        pick-none max_task_prio (record s { removeq = [] }) s.ready_mask 0
          (record { masked = masked.masked; bounded = masked.bounded }) empty in
      let same = ap (λ b. not (current == 0) && b) (running-tasks s r current is.tasks) in
      (
        r,
        get_next_lem s r current none none_removed found
            ∙ choose-none r current
            ∙ ap (λ b. some (r, true, if b then current else 0)) same,
        is,
      )
