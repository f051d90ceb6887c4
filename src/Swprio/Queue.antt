-- ===== src/Swprio/Queue.antt =====
-- The ready queues of prs/sched/swprio.c and the search for a task.
use prs.Base.{
  ℕ, zero, suc, ◌+◌, ◌≤◌, ◌<◌, ◌≡◌, refl, ◌∙◌, ap, sym, eq_of_test, Bool-cases, inl, inr, Bool,
  true, false, none, some, List, [], ◌∷◌, arith, ◌==◌, update,
}
use prs.Swprio.{Swprio, max_task_prio, is_empty, pick}

-- Every queue that holds a task has its bit set, and the queues are those of the priorities.
pub record Masked (s : Swprio) : Type 0 where
  pub masked : (p : ℕ) → is_empty (s.readyq p) ≡ false → s.ready_mask p ≡ true
  pub bounded : (p : ℕ) → max_task_prio ≤ p → is_empty (s.readyq p) ≡ true

-- What the search leaves: the same queues and tasks, and the bits of all queues that hold a task.
pub record Searched (s r : Swprio) : Type 0 where
  pub readyq : r.readyq ≡ s.readyq
  pub removeq : r.removeq ≡ s.removeq
  pub tasks : r.tasks ≡ s.tasks
  pub masked : Masked r

module _ (n : ℕ) (s : Swprio) (mask : ℕ → Bool) (prio : ℕ) where
  pick-here :
      {node : ℕ} {rest : List ℕ}
      → mask prio ≡ true
      → s.readyq prio ≡ node ∷ rest
      → pick (suc n) s mask prio ≡ (s, some (prio, node))
  unfolding pick
  pick-here bit here = rw (bit, here) refl

  cleared : Swprio
  cleared = record s { ready_mask = update s.ready_mask prio false }

  pick-empty :
      mask prio ≡ true
      → s.readyq prio ≡ []
      → pick (suc n) s mask prio ≡ pick n cleared mask (prio + 1)
  unfolding pick cleared
  pick-empty bit here = rw (bit, here) refl

  pick-clear : mask prio ≡ false → pick (suc n) s mask prio ≡ pick n s mask (prio + 1)
  unfolding pick
  pick-clear bit = rw bit refl

  cleared-Masked : s.readyq prio ≡ [] → Masked s → Masked cleared
  unfolding cleared
  cleared-Masked here masked = record {
    masked = λ p some_task. elim (Bool-cases (p == prio)) [
      | inl e ↦
          absurd (clash (sym (ap is_empty (ap s.readyq (eq_of_test p prio e) ∙ here)) ∙ some_task))
      | inr e ↦ rw e (masked.masked p some_task)
    ];
    bounded = masked.bounded;
  }
    where
      clash : true ≡ false → ⊥
      clash h = cc

  cleared-Searched : {r : Swprio} → Searched cleared r → Searched s r
  unfolding cleared
  cleared-Searched is = record {
    readyq = is.readyq;
    removeq = is.removeq;
    tasks = is.tasks;
    masked = is.masked;
  }

nil_of_empty : (q : List ℕ) → is_empty q ≡ true → q ≡ []
nil_of_empty [] h = refl
nil_of_empty (x ∷ q) h = absurd (cc h)

pub pick-first :
    (rounds : ℕ) (s : Swprio) (mask : ℕ → Bool) (prio p node : ℕ) (rest : List ℕ)
    → Masked s
    → ((p : ℕ) → is_empty (s.readyq p) ≡ false → mask p ≡ true)
    → prio ≤ p
    → p < prio + rounds
    → s.readyq p ≡ node ∷ rest
    → ((m : ℕ) → prio ≤ m → m < p → is_empty (s.readyq m) ≡ true)
    → (r : Swprio) × (pick rounds s mask prio ≡ (r, some (p, node))) × Searched s r
unfolding cleared
pick-first zero s mask prio p node rest masked covers lo hi here below = absurd (omega arith)
pick-first (suc n) s mask prio p node rest masked covers lo hi here below =
    elim (Bool-cases (prio == p)) [
      | inl e ↦
          let same = eq_of_test prio p e in
          (
            s,
            ap (pick (suc n) s mask) same ∙ pick-here n s mask p (covers p (ap is_empty here)) here,
            record { readyq = refl; removeq = refl; tasks = refl; masked = masked },
          )
      | inr e ↦
          let below' : (m : ℕ) → prio + 1 ≤ m → m < p → is_empty (s.readyq m) ≡ true =
            λ m a b. below m (omega arith) b in
          let ne : prio < p = ground arith in
          let empty = nil_of_empty (s.readyq prio) (below prio (omega arith) ne) in
          elim (Bool-cases (mask prio)) [
            | inl bit ↦
                let (r, run, is) =
                  pick-first n (cleared n s mask prio) mask (prio + 1) p node rest
                    (cleared-Masked n s mask prio empty masked) covers (omega (arith, ne))
                    (omega (arith, hi)) here below' in
                (r, pick-empty n s mask prio bit empty ∙ run, cleared-Searched n s mask prio is)
            | inr bit ↦
                let (r, run, is) =
                  pick-first n s mask (prio + 1) p node rest masked covers (omega (arith, ne))
                    (omega (arith, hi)) here below' in
                (r, pick-clear n s mask prio bit ∙ run, is)
          ]
    ]

-- With no task in a queue the search finds none.
pub pick-none :
    (rounds : ℕ) (s : Swprio) (mask : ℕ → Bool) (prio : ℕ)
    → Masked s
    → ((m : ℕ) → is_empty (s.readyq m) ≡ true)
    → (r : Swprio) × (pick rounds s mask prio ≡ (r, none)) × Searched s r
unfolding pick cleared
pick-none zero s mask prio masked empty =
    (s, refl, record { readyq = refl; removeq = refl; tasks = refl; masked = masked })
pick-none (suc n) s mask prio masked empty =
    let here = nil_of_empty (s.readyq prio) (empty prio) in
    elim (Bool-cases (mask prio)) [
      | inl bit ↦
          let (r, run, is) =
            pick-none n (cleared n s mask prio) mask (prio + 1)
              (cleared-Masked n s mask prio here masked) empty in
          (r, pick-empty n s mask prio bit here ∙ run, cleared-Searched n s mask prio is)
      | inr bit ↦
          let (r, run, is) = pick-none n s mask (prio + 1) masked empty in
          (r, pick-clear n s mask prio bit ∙ run, is)
    ]
