-- ===== src/Task/Laws.antt =====
-- The operations on the token of a task, by its fields.
use prs.Base.{
  ℕ, zero, suc, ◌+◌, ◌*◌, ◌%◌, ◌^◌, ◌<◌, ◌≡◌, ◌≢◌, refl, ◌∙◌, ap, sym, subst, eq_of_test,
  Bool-cases, inl, inr, Bool, true, false, not, none, some, arith, ◌==◌, if◌then◌else◌, word,
}
use prs.Task.{
  ready, running, blocked, Task, get_state_of, get_cause_of, get_count_of, set_token,
  count_increment, get_state, change_state, block, unblock_token, unblock, get_last_unblock_cause,
}
use prs.Task.Token.{token_of, get_state-token, get_cause-token, get_count-token, set_token-token}

-- The task's token has these fields.
pub record Has (task : Task) (state cause count : ℕ) : Type 0 where
  pub state_fits : state < 2 ^ 4
  pub cause_fits : cause < 2 ^ 8
  pub count_fits : count < 2 ^ 52
  pub token : task.state ≡ token_of state cause count

abbrev pub put : Task → (state cause count : ℕ) → Task
put task state cause count = record task { state = token_of state cause count }

-- The count of the next token.
abbrev pub next_count : ℕ → ℕ
next_count count = (count + 2 ^ 12) % 2 ^ 52

set_next :
    (s ca co : ℕ)
    → s < 2 ^ 4
    → ca < 2 ^ 8
    → co < 2 ^ 52
    → set_token s ca (word (co + count_increment)) ≡ token_of s ca (next_count co)
set_next s ca co h k l =
    set_token-token s ca (word (co + count_increment)) h k ∙ ap (token_of s ca) (omega (arith, l))

module _ {task : Task} {s ca co : ℕ} (has : Has task s ca co) where
  state_lem : get_state_of task.state ≡ s
  state_lem = ap get_state_of has.token ∙ get_state-token s ca co has.state_fits

  cause_lem : get_cause_of task.state ≡ ca
  cause_lem = ap get_cause_of has.token ∙ get_cause-token s ca co has.state_fits has.cause_fits

  count_lem : get_count_of task.state ≡ co
  count_lem =
      ap get_count_of has.token
      ∙ get_count-token s ca co has.state_fits has.cause_fits has.count_fits

  -- `prs_task_change_state` asserts the expected state, keeps the cause and steps the count.
  pub change_state-fields :
      (expected new : ℕ)
      → new < 2 ^ 4
      → change_state task expected new
        ≡ (if s == expected then some (put task new ca (next_count co)) else none)
  unfolding change_state
  change_state-fields expected new fits =
      rw (state_lem, cause_lem, count_lem, set_next new ca co fits has.cause_fits has.count_fits)
        refl

  -- `prs_task_block` asserts that the task is not blocked, clears the cause, steps the count, and
  -- returns the token that it stores.
  pub block-fields : block task ≡ (
      if not (s == blocked)
      then some (put task blocked 0 (next_count co), token_of blocked 0 (next_count co))
      else none)
  unfolding block
  block-fields =
      rw (state_lem, count_lem, set_next blocked 0 co (omega arith) (omega arith) has.count_fits)
        refl

  pub unblock_token-fields :
      (is_current_task : Bool) (cause : ℕ)
      → cause < 2 ^ 8
      → unblock_token is_current_task task.state cause
        ≡ token_of (if is_current_task then running else ready) cause (next_count co)
  unfolding unblock_token
  unblock_token-fields is_current_task cause fits = rw count_lem (
      set_next (if is_current_task then running else ready) cause co (state_fits is_current_task)
        fits has.count_fits)
    where
      state_fits : (b : Bool) → (if b then running else ready) < 2 ^ 4
      state_fits true = omega arith
      state_fits false = omega arith

  -- `prs_task_unblock` with the task's token makes the task ready, and hands it to the scheduler, or
  -- keeps it running if it is the current one; the cause can be read back from it.
  pub unblock-current :
      (is_current_task : Bool) (cause : ℕ)
      → cause < 2 ^ 8
      → let t = put task (if is_current_task then running else ready) cause (next_count co) in
        (unblock is_current_task task task.state cause ≡ (t, true, not is_current_task))
        × (get_state t ≡ (if is_current_task then running else ready))
        × (get_last_unblock_cause t ≡ cause)
  unfolding unblock get_state get_last_unblock_cause
  unblock-current is_current_task cause fits = (
    rw (same task.state, unblock_token-fields is_current_task cause fits) refl,
    get_state-token _ cause (next_count co) (state_fits is_current_task),
    get_cause-token _ cause (next_count co) (state_fits is_current_task) fits,
  )
    where
      same : (n : ℕ) → (n == n) ≡ true
      same n = ground arith

      state_fits : (b : Bool) → (if b then running else ready) < 2 ^ 4
      state_fits true = omega arith
      state_fits false = omega arith

-- A change of a task's token that succeeds.
pub data Step (t u : Task) : Type 0 where
  changes : (expected new : ℕ) → new < 2 ^ 4 → change_state t expected new ≡ some u → Step t u
  blocks : (token : ℕ) → block t ≡ some (u, token) → Step t u
  unblocks :
      (is_current_task readied : Bool) (token cause : ℕ)
      → cause < 2 ^ 8
      → unblock is_current_task t token cause ≡ (u, true, readied)
      → Step t u

abbrev pub Steps : ℕ → Task → Task → Type 0
Steps zero t u = t ≡ u
Steps (suc n) t u = (v : Task) × Step t v × Steps n v u

-- The task's token has this count.
pub record Counts (task : Task) (count : ℕ) : Type 0 where
  pub state : ℕ
  pub cause : ℕ
  pub has : Has task state cause count

put-Counts :
    (t u : Task) (s ca co : ℕ)
    → s < 2 ^ 4
    → ca < 2 ^ 8
    → put t s ca (next_count co) ≡ u
    → Counts u (next_count co)
put-Counts t u s ca co h k e =
    subst (λ u. Counts u (next_count co)) e
      (record {
        state = s;
        cause = ca;
        has = record { state_fits = h; cause_fits = k; count_fits = omega arith; token = refl };
      })

some_eq : {A : Type 0} {x y : A} → some x ≡ some y → x ≡ y
some_eq e = cc

if_some : {A : Type 0} (b : Bool) {x y : A} → (if b then some x else none) ≡ some y → x ≡ y
if_some true e = some_eq e
if_some false e = absurd (cc e)

unblock_success :
    (t u : Task) (is_current_task readied : Bool) (token cause : ℕ)
    → unblock is_current_task t token cause ≡ (u, true, readied)
    → (t.state ≡ token) × (record t { state = unblock_token is_current_task token cause } ≡ u)
unfolding unblock
unblock_success t u is_current_task readied token cause e = elim (Bool-cases (t.state == token)) [
  | inl h ↦ (eq_of_test t.state token h, ap (λ p. p.0) (sym (taken h) ∙ e))
  | inr h ↦ absurd (clash (ap (λ p. p.1) (sym (refused h) ∙ e)))
]
  where
    clash : false ≡ true → ⊥
    clash h = cc

    taken :
        (t.state == token) ≡ true
        → unblock is_current_task t token cause ≡ (
          record t { state = unblock_token is_current_task token cause },
          true,
          not is_current_task,
        )
    taken h = rw h refl

    refused : (t.state == token) ≡ false → unblock is_current_task t token cause ≡ (t, false, false)
    refused h = rw h refl

Step-Counts : (t u : Task) (co : ℕ) → Counts t co → Step t u → Counts u (next_count co)
Step-Counts t u co c (changes expected new fits e) =
    put-Counts t u new c.cause co fits c.has.cause_fits
      (if_some _ (sym (change_state-fields c.has expected new fits) ∙ e))
Step-Counts t u co c (blocks token e) =
    put-Counts t u blocked 0 co (omega arith) (omega arith)
      (ap (λ p. p.0) (if_some _ (sym (block-fields c.has) ∙ e)))
Step-Counts t u co c (unblocks is_current_task readied token cause fits e) =
    let (h, k) = unblock_success t u is_current_task readied token cause e in
    let fields = unblock_token-fields c.has is_current_task cause fits in
    put-Counts t u (if is_current_task then running else ready) cause co
      (state_fits is_current_task) fits
      (ap (λ n. record t { state = n })
          (sym fields ∙ ap (λ n. unblock_token is_current_task n cause) h)
        ∙ k)
  where
    state_fits : (b : Bool) → (if b then running else ready) < 2 ^ 4
    state_fits true = omega arith
    state_fits false = omega arith

Steps-Counts :
    (n : ℕ) (t u : Task) (co : ℕ)
    → Counts t co
    → Steps n t u
    → Counts u ((co + n * 2 ^ 12) % 2 ^ 52)
Steps-Counts zero t u co c e =
    subst (λ u. Counts u ((co + 0 * 2 ^ 12) % 2 ^ 52)) e
      (subst (Counts t) (omega (arith, c.has.count_fits)) c)
Steps-Counts (suc n) t u co c (v, step, steps) =
    subst (Counts u) (omega arith)
      (Steps-Counts n v u (next_count co) (Step-Counts t v co c step) steps)

-- A token of `prs_task_block` unblocks the task once at most: after at least one more change of the
-- task's token, and fewer than 2 ^ 40, `prs_task_unblock` with it fails and changes nothing.
pub stale-unblock :
    (t t' u : Task) (s ca co n token : ℕ)
    → Has t s ca co
    → block t ≡ some (t', token)
    → 0 < n
    → n < 2 ^ 40
    → Steps n t' u
    → (is_current_task : Bool) (cause : ℕ)
    → unblock is_current_task u token cause ≡ (u, false, false)
unfolding unblock
stale-unblock t t' u s ca co n token has e lo hi steps is_current_task cause = rw differs refl
  where
    stored :
        ◌≡◌ {A = Task × ℕ}
          (put t blocked 0 (next_count co), token_of blocked 0 (next_count co))
          (t', token)
    stored = if_some _ (sym (block-fields has) ∙ e)

    c' : Counts t' (next_count co)
    c' = put-Counts t t' blocked 0 co (omega arith) (omega arith) (ap (λ p. p.0) stored)

    c : Counts u ((next_count co + n * 2 ^ 12) % 2 ^ 52)
    c = Steps-Counts n t' u (next_count co) c' steps

    differs : (u.state == token) ≡ false
    differs =
        apart c.state c.cause _ c.has.state_fits c.has.cause_fits refl c.has.token
          (ap (λ p. p.1) stored)
      where
        apart :
            (s ca count : ℕ)
            → s < 2 ^ 4
            → ca < 2 ^ 8
            → count ≡ (next_count co + n * 2 ^ 12) % 2 ^ 52
            → u.state ≡ token_of s ca count
            → token_of blocked 0 (next_count co) ≡ token
            → (u.state == token) ≡ false
        apart s ca count h k l m o =
            let ne : count ≢ next_count co = omega (arith, lo, hi, l) in
            ground (arith, h, k, m, o, ne)
