-- ===== src/Worker/Wakeup/Awaken.antt =====
-- How a worker of prs/worker.c that sleeps wakes up, whatever the order of the steps.
use prs.Base.{
  ℕ, zero, suc, ◌<◌, ◌+◌, ◌*◌, ◌≡◌, ◌≢◌, refl, ◌∙◌, Bool, true, false, arith, ◌⊎◌, inl, inr,
}
use prs.Worker.{post_rest, go_on, turn, post_idle, wake, Post, interrupt_thread, answer}
use prs.Worker.Flags.{Flags, encode, turn_fields}
use prs.Worker.Wakeup.{
  checking, asleep, State, sent, Step, readies, stops, posts_awake, posts_idle, wakes, resumes,
  checks, finds, exits, finds_none, sleeps, stays_awake, wakes_up, enables, checks_again, disables,
  is_interrupted, ignores, drops, fails, enables_int, schedules, stops_self, stops_open, enters,
  leaves,
}
use prs.Worker.Wakeup.Invariant.{idle_flag, Inv, Step-Inv}

-- Whether a step is the beginning of a post.
unfoldable pub begins_post : {interrupt : Bool} {s t : State} → Step interrupt s t → Bool
begins_post readies = true
begins_post stops = true
begins_post (posts_awake _ _) = false
begins_post (posts_idle _ _) = false
begins_post (wakes _) = false
begins_post (resumes _) = false
begins_post (checks _ _) = false
begins_post (finds _ _) = false
begins_post (exits _) = false
begins_post (finds_none _) = false
begins_post (sleeps _ _) = false
begins_post (stays_awake _ _) = false
begins_post (wakes_up _ _) = false
begins_post (enables _ _) = false
begins_post (checks_again _ _) = false
begins_post (disables _) = false
begins_post (is_interrupted _ _) = false
begins_post (ignores _ _) = false
begins_post (drops _ _) = false
begins_post (fails _) = false
begins_post (enables_int _) = false
begins_post (schedules _) = false
begins_post (stops_self _) = false
begins_post (stops_open _) = false
begins_post (enters _ _) = false
begins_post (leaves _ _) = false

-- The worker runs again and chooses a task or leaves; or it will, whatever the next step is that is not
-- the beginning of a post, and there is such a step.
pub data Awakens (interrupt : Bool) : State → Type 0 where
  awake : {s : State} → s.place ≡ checking → turn s.flags ≢ go_on → Awakens interrupt s
  goes_on :
      {s t : State} (next : Step interrupt s t)
      → begins_post next ≡ false
      → ((u : State) (x : Step interrupt s u) → begins_post x ≡ false → Awakens interrupt u)
      → Awakens interrupt s

turn_pending : (f : Flags) → f.pending ≡ true → turn (encode f) ≢ go_on
turn_pending f pending e = ground (arith, turn_fields f)

-- What is left of the posts that have begun.
unfoldable pub in_flight : State → ℕ
in_flight s = 3 * s.arriving + 2 * s.waking + s.resuming + s.interrupts

-- Asleep with a task readied, and fewer than `n` accesses to come.
pub record Sleeps (n : ℕ) (s : State) : Type 0 where
  pub here : s.place ≡ asleep
  pub readied : s.ready ≡ true
  pub few : in_flight s < n

sent-Sleeps :
    (p : Post) (n : ℕ) (s : State)
    → s.place ≡ asleep
    → s.ready ≡ true
    → suc (in_flight s) < n
    → Sleeps n (sent p s)
unfolding in_flight
sent-Sleeps wake n s here readied few = record { here = here; readied = readied; few = omega arith }
sent-Sleeps interrupt_thread n s here readied few = record {
  here = here;
  readied = readied;
  few = omega arith;
}
sent-Sleeps (answer r) n s here readied few = record {
  here = here;
  readied = readied;
  few = omega arith;
}

stays_asleep :
    {b : Bool} {s t : State} {f : Flags}
    → Inv b s f
    → (x : Step b s t) → begins_post x ≡ false
    → s.place ≡ asleep
    → s.ready ≡ true
    → (Sleeps (in_flight s) t) ⊎ ((t.place ≡ checking) × (turn t.flags ≢ go_on))
unfolding begins_post in_flight
stays_asleep c readies old here ready = absurd (ground arith)
stays_asleep c stops old here ready = absurd (ground arith)
stays_asleep {b} {s} {f} c (posts_awake there more) old here ready =
    inl (sent-Sleeps (post_rest b s.flags) (in_flight s) _ here ready (omega arith))
stays_asleep {b} {s} {f} c (posts_idle there more) old here ready =
    inl (record { here = here; readied = ready; few = omega arith })
stays_asleep {b} {s} {f} c (wakes more) old here ready =
    inl (sent-Sleeps (post_idle b s.flags) (in_flight s) _ here ready (omega arith))
stays_asleep {b} {s} {f} c (resumes there) old here ready =
    inl (record { here = here; readied = ready; few = omega arith })
stays_asleep {b} {s} {f} c (checks there more) old here ready = absurd (ground arith)
stays_asleep {b} {s} {f} c (finds there more) old here ready = absurd (ground arith)
stays_asleep {b} {s} {f} c (exits there) old here ready = absurd (ground arith)
stays_asleep {b} {s} {f} c (finds_none there) old here ready = absurd (ground arith)
stays_asleep {b} {s} {f} c (sleeps there more) old here ready = absurd (ground arith)
stays_asleep {b} {s} {f} c (stays_awake there more) old here ready = absurd (ground arith)
stays_asleep {b} {s} {f} c (wakes_up there more) old here ready =
    inr (refl, rw c.fields (turn_pending f (ground (arith, c))))
stays_asleep {b} {s} {f} c (enables there more) old here ready = absurd (ground arith)
stays_asleep {b} {s} {f} c (checks_again there more) old here ready = absurd (ground arith)
stays_asleep {b} {s} {f} c (disables there) old here ready = absurd (ground arith)
stays_asleep {b} {s} {f} c (is_interrupted there more) old here ready = absurd (ground arith)
stays_asleep {b} {s} {f} c (ignores there more) old here ready =
    inl (record { here = here; readied = ready; few = omega arith })
stays_asleep {b} {s} {f} c (drops there more) old here ready = absurd (ground arith)
stays_asleep {b} {s} {f} c (fails there) old here ready =
    inl (record { here = here; readied = ready; few = omega arith })
stays_asleep {b} {s} {f} c (enables_int there) old here ready = absurd (ground arith)
stays_asleep {b} {s} {f} c (schedules there) old here ready = absurd (ground arith)
stays_asleep {b} {s} {f} c (stops_self there) old here ready = absurd (ground arith)
stays_asleep {b} {s} {f} c (stops_open there) old here ready = absurd (ground arith)
stays_asleep {b} {s} {f} c (enters there more) old here ready = absurd (ground arith)
stays_asleep {b} {s} {f} c (leaves there more) old here ready = absurd (ground arith)

zero_or_suc : (n : ℕ) → (n ≡ 0) ⊎ ((m : ℕ) × (n ≡ suc m))
zero_or_suc zero = inl refl
zero_or_suc (suc m) = inr (m, refl)

-- A sleeping worker whose task was readied is not stuck.
next_step :
    {b : Bool} {s : State} {f : Flags}
    → Inv b s f
    → s.place ≡ asleep
    → s.ready ≡ true
    → (t : State) × (x : Step b s t) × (begins_post x ≡ false)
unfolding begins_post
next_step {b} {s} {f} c here ready = elim (zero_or_suc s.sem) [
  | inr (_, more) ↦ (_, wakes_up here more, refl)
  | inl no_sem ↦ elim (zero_or_suc s.resuming) [
    | inr (_, more) ↦ (_, resumes more, refl)
    | inl no_resuming ↦ elim (zero_or_suc s.waking) [
      | inr (_, more) ↦ (_, wakes more, refl)
      | inl no_waking ↦ elim (zero_or_suc s.arriving) [
        | inr (_, more) ↦ (_, posts_idle more (idle_flag c ∙ ground (arith, c)), refl)
        | inl no_arriving ↦ absurd (ground (arith, c))
      ]
    ]
  ]
]

pub Sleeps-Awakens :
    {b : Bool} (n : ℕ) {s : State} {f : Flags} → Inv b s f → Sleeps n s → Awakens b s
Sleeps-Awakens zero c a = absurd (omega (arith, a.few))
Sleeps-Awakens (suc n) c a =
    let (_, x, old) = next_step c a.here a.readied in
    goes_on x old (λ u y older. elim (stays_asleep c y older a.here a.readied) [
      | inl b ↦
          Sleeps-Awakens n ((Step-Inv c y).1)
            (record { here = b.here; readied = b.readied; few = omega (arith, a.few, b.few) })
      | inr (there, turned) ↦ awake there turned
    ])
