-- ===== src/Event/Laws.antt =====
-- The operations of prs/event.c on an event that is allocated.
use prs.Base.{
  ℕ, ◌-◌, ◌^◌, ◌≤◌, ◌<◌, ◌≡◌, ◌≢◌, refl, ◌∙◌, ap, sym, fun_ext, eq_of_test, test_self, Bool-cases,
  ◌⊎◌, inl, inr, Bool, true, false, not, Option, none, some, ◌∷◌, arith, bit_or, ◌==◌, leb, ltb,
  if◌then◌else◌, sub_word, update,
}
use prs.Task.{Task, ready, running, blocked, get_state, unblock_token, unblock}
use prs.Task.Token.{token_of, get_state-token}
use prs.Task.Laws.{Has, put, next_count, block-fields, unblock_token-fields}
use prs.Event.{
  Event, World, create, new_event, state_signaled, state_freed, destroy, drop_ref, unblock_in,
  signal_task, add_signaled, unref_event, unref_internal, signal, unref,
}

-- The event is allocated and has a reference left.
pub record Live (w : World) (event : ℕ) (e : Event) : Type 0 where
  pub found : w.events event ≡ some e
  pub some_ref : 0 < e.refcnt
  pub refs : e.refcnt ≤ e.initial_refcnt
  pub small : e.initial_refcnt < 2 ^ 64

-- The event after one reference is dropped.
abbrev pub after : Event → Option Event
after e = if e.refcnt == 1 then none else some (record e { refcnt = e.refcnt - 1 })

abbrev pub freed : Event → ℕ
freed e = if e.refcnt == 1 then state_freed else 0

abbrev pub drop : World → ℕ → Event → World
drop w event e = record w { events = update w.events event (after e) }

-- The world after the task of the event is unblocked.
abbrev pub woken : World → ℕ → Event → Task → ℕ → World
woken w event e task type = record (drop w event e) {
  tasks =
      update w.tasks e.task_id
        (some (record task { state = unblock_token (e.task_id == w.current) e.token type }));
  readied = if not (e.task_id == w.current) then e.task_id ∷ w.readied else w.readied;
}

update_same : {A : Type 0} (f : ℕ → A) (i : ℕ) {v : A} → f i ≡ v → update f i v ≡ f
update_same f i {v = v} e = fun_ext (λ j. go j (Bool-cases (j == i)))
  where
    go : (j : ℕ) → ((j == i) ≡ true) ⊎ ((j == i) ≡ false) → update f i v j ≡ f j
    go j (inl h) = rw h (sym e ∙ ap f (sym (eq_of_test j i h)))
    go j (inr h) = rw h refl

update_at : {A : Type 0} (f : ℕ → A) (i : ℕ) (v : A) → update f i v i ≡ v
update_at f i v = rw (test_self i) refl

module _ (w : World) (state task_id token type : ℕ) where
  gone :
      w.tasks task_id ≡ none
      → add_signaled state (signal_task w task_id token type) ≡ (w, bit_or state state_signaled)
  unfolding add_signaled signal_task
  gone found = rw (signal_task, found) refl

  late :
      (task : Task)
      → w.tasks task_id ≡ some task
      → task.state ≢ token
      → add_signaled state (signal_task w task_id token type) ≡ (w, bit_or state state_signaled)
  unfolding add_signaled signal_task unblock_in unblock
  late task found differs =
      let other : (task.state == token) ≡ false = ground arith in
      rw (signal_task, found, other)
        (ap (λ t. (record w { tasks = t }, bit_or state state_signaled))
          (update_same w.tasks task_id found))

module _ {w : World} {event : ℕ} {e : Event} (live : Live w event e) where
  drop_ref_lem : drop_ref w event e ≡ (drop w event e, freed e)
  unfolding drop_ref destroy
  drop_ref_lem = go (Bool-cases (e.refcnt == 1))
    where
      less : sub_word e.refcnt 1 ≡ e.refcnt - 1
      less = omega (arith, live.some_ref, live.refs, live.small)

      go :
          ((e.refcnt == 1) ≡ true) ⊎ ((e.refcnt == 1) ≡ false)
          → drop_ref w event e ≡ (drop w event e, freed e)
      go (inl h) = rw h refl
      go (inr h) = rw (h, less) refl

  unref_internal_lem :
      (s : Bool) (type : ℕ) → unref_internal w event s type ≡ some (unref_event w event e s type)
  unfolding unref_internal
  unref_internal_lem s type =
      let lo : ltb 0 e.refcnt ≡ true = ground (arith, live.some_ref) in
      let hi : leb e.refcnt e.initial_refcnt ≡ true = ground (arith, live.refs) in
      rw (unref_internal, live.found, lo, hi) refl

  -- `prs_event_unref` drops one reference, frees the event with the last one, and touches no task.
  pub unref-drops : unref w event ≡ some (drop w event e, freed e)
  unfolding unref unref_event
  unref-drops = unref_internal_lem false 0 ∙ ap some drop_ref_lem

  signal_lem :
      (type : ℕ)
      → signal w event type
        ≡ some (add_signaled (freed e) (signal_task (drop w event e) e.task_id e.token type))
  unfolding signal unref_event
  signal_lem type =
      unref_internal_lem true type
      ∙ ap (λ p. some (add_signaled p.1 (signal_task p.0 e.task_id e.token type))) drop_ref_lem

  -- `prs_event_signal` unblocks the task that still waits with the token of the event, hands it to
  -- the scheduler unless it is the current one, and drops one reference; it does not report
  -- `PRS_EVENT_STATE_SIGNALED`.
  pub signal-wakes :
      (task : Task) (type : ℕ)
      → w.tasks e.task_id ≡ some task
      → task.state ≡ e.token
      → signal w event type ≡ some (woken w event e task type, freed e)
  unfolding signal_task unblock_in unblock add_signaled
  signal-wakes task type found waits =
      let same : (task.state == e.token) ≡ true = ground arith in
      signal_lem type ∙ rw (signal_task, found, same) refl

  -- `prs_event_signal` for a task that is gone, or whose token is another one, changes nothing but
  -- the references, and reports `PRS_EVENT_STATE_SIGNALED`.
  pub signal-late :
      (type : ℕ)
      → ((task : Task) → w.tasks e.task_id ≡ some task → task.state ≢ e.token)
      → signal w event type ≡ some (drop w event e, bit_or (freed e) state_signaled)
  signal-late type differs = signal_lem type ∙ ap some (go (w.tasks e.task_id) refl)
    where
      go :
          (found : Option Task)
          → w.tasks e.task_id ≡ found
          → add_signaled (freed e) (signal_task (drop w event e) e.task_id e.token type)
            ≡ (drop w event e, bit_or (freed e) state_signaled)
      go none found = gone (drop w event e) (freed e) e.task_id e.token type found
      go (some task) found =
          late (drop w event e) (freed e) e.task_id e.token type task found (differs task found)

-- The next token is another one.
next-differs :
    (task : Task) (s ca co token type : ℕ) (b : Bool)
    → Has task s ca co
    → task.state ≡ token
    → type < 2 ^ 8
    → unblock_token b token type ≢ token
next-differs task s ca co token type b has waits fits same =
    let e = ap (λ n. unblock_token b n type) waits in
    apart (if b then running else ready) (state_fits b)
      (sym (unblock_token-fields has b type fits) ∙ e ∙ same ∙ sym waits ∙ has.token)
  where
    state_fits : (b : Bool) → (if b then running else ready) < 2 ^ 4
    state_fits true = omega arith
    state_fits false = omega arith

    apart : (s' : ℕ) → s' < 2 ^ 4 → token_of s' type (next_count co) ≡ token_of s ca co → ⊥
    apart s' h k =
        absurd (omega (arith, h, k, fits, has.state_fits, has.cause_fits, has.count_fits))

-- The event and its task after the first of two sources has signalled it.
module _ (w : World) (event : ℕ) (e : Event) (task : Task) (s ca co type : ℕ)
    (live : Live w event e) (has : Has task s ca co) (waits : task.state ≡ e.token)
    (more : 1 < e.refcnt) (fits : type < 2 ^ 8) where
  kept : (e.refcnt == 1) ≡ false
  kept = ground (arith, more)

  pub woken-Live : Live (woken w event e task type) event (record e { refcnt = e.refcnt - 1 })
  woken-Live = record {
    found = rw kept (update_at w.events event _);
    some_ref = omega (arith, more);
    refs = omega (arith, live.refs);
    small = live.small;
  }

  pub woken-late :
      (t : Task) → (woken w event e task type).tasks e.task_id ≡ some t → t.state ≢ e.token
  woken-late t h k =
      next-differs task s ca co e.token type (e.task_id == w.current) has waits fits
        (ap state_of (sym (update_at w.tasks e.task_id _) ∙ h) ∙ k)
    where
      state_of : Option Task → ℕ
      state_of none = 0
      state_of (some t) = t.state

  pub signal-first :
      w.tasks e.task_id ≡ some task → signal w event type ≡ some (woken w event e task type, 0)
  signal-first found =
      signal-wakes live task type found waits
      ∙ ap (λ n. some (woken w event e task type, n)) (rw kept refl)

-- Of two sources that signal an event with more than one reference, whose task waits for it, the first
-- one unblocks the task, and the second one is told that it comes too late and changes nothing but
-- the references.
pub signal-twice :
    (w : World) (event : ℕ) (e : Event) (task : Task) (s ca co type type' : ℕ)
    → Live w event e
    → w.tasks e.task_id ≡ some task
    → Has task s ca co
    → task.state ≡ e.token
    → 1 < e.refcnt
    → type < 2 ^ 8
    → let e' = record e { refcnt = e.refcnt - 1 } in
      (signal w event type ≡ some (woken w event e task type, 0))
      × (signal (woken w event e task type) event type'
          ≡ some (drop (woken w event e task type) event e', bit_or (freed e') state_signaled))
signal-twice w event e task s ca co type type' live found has waits more fits = (
  signal-first w event e task s ca co type live has waits more fits found,
  signal-late (woken-Live w event e task s ca co type live has waits more fits) type'
      (woken-late w event e task s ca co type live has waits more fits),
)

-- The task of the event waits for it.
pub record Waits (w : World) (event : ℕ) (e : Event) (task : Task) : Type 0 where
  pub live : Live w event e
  pub found : w.tasks e.task_id ≡ some task
  pub token : task.state ≡ e.token
  pub blocked_state : get_state task ≡ blocked

-- `prs_event_create` blocks the task, which must not be blocked, and the event that it returns has
-- all its references; no other task and no other event changes.
pub create-Waits :
    (w : World) (event task_id refcnt : ℕ) (task : Task) (s ca co : ℕ)
    → event ≢ 0
    → Has task s ca co
    → s ≢ blocked
    → 0 < refcnt
    → refcnt < 2 ^ 64
    → let token = token_of blocked 0 (next_count co) in
      let e : Event = record {
        task_id = task_id;
        token = token;
        initial_refcnt = refcnt;
        refcnt = refcnt;
      } in
      (r : World) × (create w event task_id task refcnt ≡ some r)
      × Waits r event e (put task blocked 0 (next_count co))
      × ((i : ℕ) → i ≢ task_id → r.tasks i ≡ w.tasks i)
      × ((i : ℕ) → i ≢ event → r.events i ≡ w.events i)
unfolding create new_event get_state
create-Waits w event task_id refcnt task s ca co some_event has runs some_ref small = (
  new_event w event task_id refcnt
      (put task blocked 0 (next_count co), token_of blocked 0 (next_count co)),
  rw (create, zero_test, block-fields has, test) refl,
  record {
    live = record {
      found = update_at w.events event _;
      some_ref = some_ref;
      refs = omega arith;
      small = small;
    };
    found = update_at w.tasks task_id _;
    token = refl;
    blocked_state = get_state-token blocked 0 (next_count co) (omega arith);
  },
  (λ i ne. rw (not_same i task_id ne) refl),
  (λ i ne. rw (not_same i event ne) refl),
)
  where
    not_same : (a b : ℕ) → a ≢ b → (a == b) ≡ false
    not_same a b ne = ground arith

    zero_test : (event == 0) ≡ false
    zero_test = not_same event 0 some_event

    test : (s == blocked) ≡ false
    test = not_same s blocked runs
