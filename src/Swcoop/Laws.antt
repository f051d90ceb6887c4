-- ===== src/Swcoop/Laws.antt =====
-- What the scheduler of prs/sched/swcoop.c does with the tasks that are removed and with those that
-- are ready.
use prs.Base.{
  ℕ, ◌^◌, ◌<◌, ◌≡◌, ◌≢◌, refl, ap, sym, test_self, Bool-cases, inl, inr, false, some, List, [], ◌∷◌,
  arith, ◌==◌, if◌then◌else◌, update,
}
use prs.Chain.Seg.{has, without}
use prs.Task.{Task, stopped, zombie, get_state}
use prs.Task.Token.{get_state-token}
use prs.Task.Laws.{Has, put, next_count, change_state-fields}
use prs.Swcoop.{Swcoop, set_state, purge_task}

abbrev pub with_state : Swcoop → (task new ca co : ℕ) → Swcoop
with_state s task new ca co = record s {
  tasks = update s.tasks task (put (s.tasks task) new ca (next_count co));
}

pub set_state-fields :
    (s : Swcoop) (task st ca co new : ℕ)
    → Has (s.tasks task) st ca co
    → new < 2 ^ 4
    → set_state s task st new ≡ some (with_state s task new ca co)
unfolding set_state
set_state-fields s task st ca co new has fits =
    rw (set_state, change_state-fields has st new fits, test_self st) refl

-- A task that is to be removed has stopped, whatever else its token says.
pub record Stopped (t : Task) : Type 0 where
  pub ca : ℕ
  pub co : ℕ
  pub has : Has t stopped ca co

-- The ready queue without the tasks that are removed.
abbrev pub without_all : List ℕ → List ℕ → List ℕ
without_all [] q = q
without_all (x ∷ xs) q = without_all xs (without x q)

without_absent : (x : ℕ) (q : List ℕ) → has x q ≡ false → without x q ≡ q
without_absent x [] h = refl
without_absent x (y ∷ q) h =
    let ne : (x == y) ≡ false = ground arith in
    rw ne (ap (λ q. y ∷ q) (without_absent x q (ground arith)))

pub dequeued : (x : ℕ) (q : List ℕ) → (if has x q then without x q else q) ≡ without x q
dequeued x q = elim (Bool-cases (has x q)) [
  | inl e ↦ rw e refl
  | inr e ↦ rw e (sym (without_absent x q e))
]

-- What the removal of a task leaves.
pub record Purged (s : Swcoop) (task : ℕ) (r : Swcoop) : Type 0 where
  pub readyq : r.readyq ≡ without task s.readyq
  pub state : get_state (r.tasks task) ≡ zombie
  pub attached : r.attached task ≡ false
  pub tasks : (t : ℕ) → t ≢ task → r.tasks t ≡ s.tasks t
  pub others : (t : ℕ) → t ≢ task → r.attached t ≡ s.attached t

not_same : (a b : ℕ) → a ≢ b → (a == b) ≡ false
not_same a b ne = ground arith

pub purge_task-Purged :
    (s : Swcoop) (task : ℕ)
    → Stopped (s.tasks task)
    → (r : Swcoop) × (purge_task s task ≡ some r) × Purged s task r
unfolding purge_task get_state
purge_task-Purged s task st = (
  record r { attached = update r.attached task false },
  rw (purge_task, set_state-fields s' task stopped st.ca st.co zombie st.has (omega arith)) refl,
  record {
    readyq = dequeued task s.readyq;
    state = rw (test_self task) (get_state-token zombie st.ca (next_count st.co) (omega arith));
    attached = rw (test_self task) refl;
    tasks = λ t ne. rw (not_same t task ne) refl;
    others = λ t ne. rw (not_same t task ne) refl;
  },
)
  where
    s' : Swcoop
    s' = record s { readyq = if has task s.readyq then without task s.readyq else s.readyq }

    r : Swcoop
    r = with_state s' task zombie st.ca st.co
