-- ===== src/Swcoop/Purge.antt =====
-- The loop of prs/sched/swcoop.c over the remove queue, and the choice of the next task.
use prs.Base.{
  ℕ, ◌≡◌, ◌≢◌, refl, ◌∙◌, ap, sym, subst, eq_of_test, test_self, Bool-cases, inl, inr, Bool, true,
  false, not, ◌&&◌, some, List, [], ◌∷◌, arith, ◌==◌,
}
use prs.Chain.Seg.{has, without}
use prs.Task.{ready, running, zombie, get_state}
use prs.Task.Token.{get_state-token}
use prs.Task.Laws.{Has, next_count}
use prs.Swcoop.{Swcoop, purge_task, purge, is_running, take, next_of_purged, get_next}
use prs.Swcoop.Laws.{with_state, set_state-fields, Stopped, without_all, purge_task-Purged}

abbrev pub Distinct : List ℕ → Type 0
Distinct [] = Unit {0}
Distinct (x ∷ xs) = (has x xs ≡ false) × Distinct xs

-- What the loop leaves of the tasks `q` that are removed.
pub record AllPurged (s : Swcoop) (q : List ℕ) (r : Swcoop) : Type 0 where
  pub readyq : r.readyq ≡ without_all q s.readyq
  pub removeq : r.removeq ≡ []
  pub gone : (t : ℕ) → has t q ≡ true → (get_state (r.tasks t) ≡ zombie) × (r.attached t ≡ false)
  pub others : (t : ℕ) → has t q ≡ false → (r.tasks t ≡ s.tasks t) × (r.attached t ≡ s.attached t)

-- The tasks that wait to be removed: each once, each stopped.
pub record Removable (s : Swcoop) (q : List ℕ) : Type 0 where
  pub distinct : Distinct q
  pub stopped : (t : ℕ) → has t q ≡ true → Stopped (s.tasks t)

purge_next :
    (s s' : Swcoop) (current task : ℕ) (q : List ℕ)
    → (current == task) ≡ false
    → purge_task s task ≡ some s'
    → purge (task ∷ q) s current ≡ purge q s' current
unfolding purge
purge_next s s' current task q ne e = rw (ne, e) refl

differ : (t x : ℕ) (q : List ℕ) → has x q ≡ false → has t q ≡ true → t ≢ x
differ t x q out inside e = absurd (clash (sym inside ∙ ap (λ t. has t q) e ∙ out))
  where
    clash : true ≡ false → ⊥
    clash h = cc

outside : (t x : ℕ) (q : List ℕ) → has t (x ∷ q) ≡ false → (t ≢ x) × (has t q ≡ false)
outside t x q h = (λ e. absurd (ground arith), ground arith)

has_cons : (t x : ℕ) (q : List ℕ) → has t q ≡ true → has t (x ∷ q) ≡ true
has_cons t x q h = ground arith

has_self : (x : ℕ) (q : List ℕ) → has x (x ∷ q) ≡ true
has_self x q = ground arith

in_tail : (t x : ℕ) (q : List ℕ) → (t == x) ≡ false → has t (x ∷ q) ≡ true → has t q ≡ true
in_tail t x q ne h = ground arith

pub purge-AllPurged :
    (q : List ℕ) (s : Swcoop) (current : ℕ)
    → Removable s q
    → has current q ≡ false
    → (r : Swcoop) × (purge q s current ≡ some (r, true)) × AllPurged s q r
unfolding purge
purge-AllPurged [] s current rem out = (
  record s { removeq = [] },
  refl,
  record {
    readyq = refl;
    removeq = refl;
    gone = λ t h. absurd (ground arith);
    others = λ t h. (refl, refl);
  },
)
purge-AllPurged (x ∷ q) s current rem out =
    let (s', e, p) = purge_task-Purged s x (rem.stopped x (has_self x q)) in
    let rem' : Removable s' q = record {
      distinct = rem.distinct.1;
      stopped = λ t h.
          subst Stopped (sym (p.tasks t (differ t x q rem.distinct.0 h)))
            (rem.stopped t (has_cons t x q h));
    } in
    let (ne, out') = outside current x q out in
    let (r, run, all) = purge-AllPurged q s' current rem' out' in
    (
      r,
      purge_next s s' current x q (not_same current x ne) e ∙ run,
      record {
        readyq = all.readyq ∙ ap (without_all q) p.readyq;
        removeq = all.removeq;
        gone = λ t h. elim (Bool-cases (t == x)) [
          | inl same ↦
              let e = eq_of_test t x same in
              let kept = all.others x rem.distinct.0 in
              rw e (ap get_state kept.0 ∙ p.state, kept.1 ∙ p.attached)
          | inr other ↦ all.gone t (in_tail t x q other h)
        ];
        others = λ t h.
            let (ne, h') = outside t x q h in
            let kept = all.others t h' in (kept.0 ∙ p.tasks t ne, kept.1 ∙ p.others t ne);
      },
    )
  where
    not_same : (a b : ℕ) → a ≢ b → (a == b) ≡ false
    not_same a b ne = ground arith

abbrev pub keeps : Swcoop → (current : ℕ) → Bool
keeps s current = not (current == 0) && is_running s current

running-tasks :
    (s r : Swcoop) (task : ℕ) → r.tasks task ≡ s.tasks task → is_running r task ≡ is_running s task
unfolding is_running
running-tasks s r task e = ap (λ t. get_state t == running) e

get_next_lem :
    (s r : Swcoop) (current : ℕ)
    → purge s.removeq s current ≡ some (r, true)
    → get_next s current ≡ next_of_purged current (r, true)
unfolding get_next
get_next_lem s r current e = rw (get_next, e) refl

next_keep :
    (r : Swcoop) (current : ℕ)
    → keeps r current ≡ true
    → next_of_purged current (r, true) ≡ some (r, true, current)
unfolding next_of_purged
next_keep r current runs = rw runs refl

next_take :
    (r : Swcoop) (current : ℕ)
    → keeps r current ≡ false
    → next_of_purged current (r, true) ≡ take r r.readyq
unfolding next_of_purged
next_take r current idle = rw idle refl

without_first : (x : ℕ) (xs : List ℕ) → without x (x ∷ xs) ≡ xs
without_first x xs = rw (test_self x) refl

take_first :
    (r : Swcoop) (node ca co : ℕ) (ns : List ℕ)
    → r.readyq ≡ node ∷ ns
    → Has (r.tasks node) ready ca co
    → take r r.readyq ≡ some (with_state (record r { readyq = ns }) node running ca co, true, node)
unfolding take
take_first r node ca co ns here has =
    ap (take r) here
    ∙ rw
        (
          take,
          without_first node ns,
          set_state-fields (record r { readyq = ns }) node ready ca co running has (omega arith),
        )
        refl

module _ (s : Swcoop) (current : ℕ) (rem : Removable s s.removeq)
    (stays : has current s.removeq ≡ false) where
  still : (r : Swcoop) → AllPurged s s.removeq r → keeps r current ≡ keeps s current
  still r all =
      ap (λ b. not (current == 0) && b) (running-tasks s r current (all.others current stays).0)

  -- Where the tasks in the remove queue have stopped, each is there once, and the current task is not
  -- among them, `prs_sched_swcoop_get_next` makes each of them a zombie, takes it from the ready queue
  -- and clears its user data; the other tasks do not change. A current task that runs goes on.
  pub get_next-goes_on :
      keeps s current ≡ true
      → (r : Swcoop) × (get_next s current ≡ some (r, true, current)) × AllPurged s s.removeq r
  get_next-goes_on runs =
      let (r, run, all) = purge-AllPurged s.removeq s current rem stays in
      (r, get_next_lem s r current run ∙ next_keep r current (still r all ∙ runs), all)

  -- Where every task of the remove queue can be removed and the current task is not one of them: if
  -- there is no current task or it does not run, the oldest task that is left in
  -- the ready queue leaves it and runs next, where that task is ready and not to be removed; the
  -- remove queue is empty then, and its tasks are zombies.
  pub get_next-oldest :
      (node ca co : ℕ) (ns : List ℕ)
      → keeps s current ≡ false
      → without_all s.removeq s.readyq ≡ node ∷ ns
      → has node s.removeq ≡ false
      → Has (s.tasks node) ready ca co
      → (r : Swcoop) × (get_next s current ≡ some (r, true, node))
        × (r.readyq ≡ ns)
        × (r.removeq ≡ [])
        × (get_state (r.tasks node) ≡ running)
        × ((t : ℕ) → has t s.removeq ≡ true → get_state (r.tasks t) ≡ zombie)
        × ((t : ℕ) → t ≢ node → has t s.removeq ≡ false → r.tasks t ≡ s.tasks t)
  unfolding get_state
  get_next-oldest node ca co ns idle first here fields =
      let (r, run, all) = purge-AllPurged s.removeq s current rem stays in
      let ready_here = subst (λ t. Has t ready ca co) (sym (all.others node here).0) fields in
      (
        with_state (record r { readyq = ns }) node running ca co,
        get_next_lem s r current run
            ∙ next_take r current (still r all ∙ idle)
            ∙ take_first r node ca co ns (all.readyq ∙ first) ready_here,
        refl,
        all.removeq,
        rw (test_self node) (get_state-token running ca (next_count co) (omega arith)),
        (λ t h. rw (not_same t node (differ' t h)) (all.gone t h).0),
        (λ t ne h. rw (not_same t node ne) (all.others t h).0),
      )
    where
      not_same : (a b : ℕ) → a ≢ b → (a == b) ≡ false
      not_same a b ne = ground arith

      differ' : (t : ℕ) → has t s.removeq ≡ true → t ≢ node
      differ' t h = differ t node s.removeq here h
