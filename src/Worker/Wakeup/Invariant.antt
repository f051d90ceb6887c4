-- ===== src/Worker/Wakeup/Invariant.antt =====
-- What holds of a worker of prs/worker.c and of those that post to it, in every state that is reached.
use prs.Base.{
  ℕ, suc, ◌+◌, ◌≡◌, refl, ap, sym, ◌∙◌, Bool, true, false, not, ◌&&◌, ◌||◌, ltb, if◌then◌else◌,
  arith,
}
use prs.Worker.{
  flag_idle, flag_interrupt_pending, has_flag, add_flag, drop_flag, idle_flags, prologue_flags,
  turn, post_rest, post_idle, wake, interrupt_thread, answer,
}
use prs.Worker.Flags.{
  has-pending, Flags, flags, encode, has-idle, add-pending, add-stop, drop-pending, drop-idle,
  drop-interruptible, turn_fields, idle_fields, prologue_fields, post_rest_fields, post_idle_fields,
}
use prs.Base.Result.{ok, already_exists, locked}
use prs.Worker.Wakeup.{
  Place, is_open, leaving, stops_open, entry, exits, drops, fails, stops_self, enters, leaves,
  to_entry, open_task, shut, checking, choosing, sleepy, asleep, enabling, gone, State, sent,
  place_of, Back, to_prologue, to_caller, Step, readies, stops, posts_awake, posts_idle, wakes,
  resumes, checks, finds, finds_none, sleeps, stays_awake, wakes_up, enables, checks_again,
  disables, is_interrupted, ignores, enables_int, schedules, Steps, stay, step, start,
}

abbrev pub is_asleep : Place → Bool
is_asleep asleep = true
is_asleep entry = false
is_asleep leaving = false
is_asleep open_task = false
is_asleep shut = false
is_asleep checking = false
is_asleep choosing = false
is_asleep sleepy = false
is_asleep enabling = false
is_asleep gone = false

abbrev pub count : Bool → ℕ
count true = 1
count false = 0

-- A post has reached the worker: it is about to choose a task, or will find the pending flag set before it
-- goes on, or somebody wakes it.
abbrev pub noticed : Place → Flags → (waking : ℕ) → Bool
noticed choosing f waking = true
noticed entry f waking = true
noticed leaving f waking = true
noticed gone f waking = true
noticed asleep f waking = not f.idle || ltb 0 waking
noticed open_task f waking = f.pending
noticed shut f waking = f.pending
noticed checking f waking = f.pending
noticed sleepy f waking = f.pending
noticed enabling f waking = f.pending

pub record Inv (interrupt : Bool) (s : State) (f : Flags) : Type 0 where
  pub fields : s.flags ≡ encode f
  pub opened : f.interruptible ≡ is_open s.place
  pub slept : count f.idle + s.resuming + s.sem ≡ count (is_asleep s.place)
  pub kept : (not (is_asleep s.place) || f.pending) ≡ true
  pub heard : (not s.ready || (ltb 0 s.arriving || noticed s.place f s.waking)) ≡ true
  pub prompt :
      (not interrupt || (not (f.interruptible && f.pending) || (s.dropped || ltb 0 s.interrupts)))
      ≡ true

start-Inv : (b : Bool) → Inv b start (flags false false false false)
unfolding encode
start-Inv b = record {
  fields = refl;
  opened = refl;
  slept = refl;
  kept = refl;
  heard = refl;
  prompt = ground arith;
}

sent_rest :
    {b : Bool} {s : State} {f : Flags} {n : ℕ}
    → Inv b s f
    → s.arriving ≡ suc n
    → f.idle ≡ false
    → Inv b
        (sent
          (if b
            then (if f.interruptible
                then (if not f.pending then interrupt_thread else answer already_exists)
                else answer locked)
            else answer ok)
          (record s { flags = encode (record f { pending = true }); arriving = n }))
        (record f { pending = true })
sent_rest c more awake = ground arith

Post-Inv :
    {b : Bool} {s : State} {f : Flags} {n : ℕ}
    → Inv b s f
    → s.arriving ≡ suc n
    → f.idle ≡ false
    → Inv b
        (sent
          (post_rest b s.flags)
          (record s { flags = add_flag flag_interrupt_pending s.flags; arriving = n }))
        (record f { pending = true })
Post-Inv {b} {s} {f} {n} c more awake =
    rw (c.fields, add-pending f, post_rest_fields b f) (sent_rest c more awake)

wake_rest :
    {b : Bool} {s : State} {f : Flags} {n : ℕ}
    → Inv b s f
    → s.waking ≡ suc n
    → Inv b
        (sent
          (if f.idle
            then wake
            else (if b
                then (if f.interruptible
                    then (if not f.pending then interrupt_thread else answer already_exists)
                    else answer locked)
                else answer ok))
          (record s { flags = encode (record f { idle = false }); waking = n }))
        (record f { idle = false })
wake_rest c more = ground arith

Wake-Inv :
    {b : Bool} {s : State} {f : Flags} {n : ℕ}
    → Inv b s f
    → s.waking ≡ suc n
    → Inv b
        (sent (post_idle b s.flags) (record s { flags = drop_flag flag_idle s.flags; waking = n }))
        (record f { idle = false })
Wake-Inv {b} {s} {f} {n} c more =
    rw (c.fields, drop-idle f, post_idle_fields b f, post_rest_fields b f) (wake_rest c more)

Check-Inv :
    {b : Bool} {s : State} {f : Flags} {back : Place}
    → Inv b s f
    → s.place ≡ checking
    → Back back
    → Inv b
        (record s {
          flags = drop_flag flag_interrupt_pending s.flags;
          place = place_of (turn s.flags) back;
        })
        (record f { pending = false })
Check-Inv {b} {s} {f} c here to_entry = rw (c.fields, drop-pending f, turn_fields f) (ground arith)
Check-Inv {b} {s} {f} c here to_prologue =
    rw (c.fields, drop-pending f, turn_fields f) (ground arith)
Check-Inv {b} {s} {f} c here to_caller = rw (c.fields, drop-pending f, turn_fields f) (ground arith)

idle_field :
    {b t : Bool} {s : State} {f : Flags} → Inv b s f → has_flag s.flags flag_idle ≡ t → f.idle ≡ t
idle_field {f} c e = sym (has-idle f) ∙ ap (λ x. has_flag x flag_idle) (sym c.fields) ∙ e

pub Step-Inv :
    {b : Bool} {s t : State} {f : Flags} → Inv b s f → Step b s t → (g : Flags) × Inv b t g
Step-Inv {s} {f} c readies = (f, (ground arith))
Step-Inv {s} {f} c stops = (record f { stop = true }, rw (c.fields, add-stop f) (ground arith))
Step-Inv {s} {f} c (posts_awake more awake) =
    (record f { pending = true }, Post-Inv c more (idle_field c awake))
Step-Inv {s} {f} c (posts_idle more idle) =
    let e = idle_field c idle in
    (record f { pending = true }, rw (c.fields, add-pending f) (ground arith))
Step-Inv {s} {f} c (wakes more) = (record f { idle = false }, Wake-Inv c more)
Step-Inv {s} {f} c (resumes more) = (f, (ground arith))
Step-Inv {s} {f} c (checks here back) = (record f { pending = false }, Check-Inv c here back)
Step-Inv {s} {f} c (finds here to_entry) = (f, (ground arith))
Step-Inv {s} {f} c (exits here) = (f, (ground arith))
Step-Inv {s} {f} c (finds here to_prologue) = (f, (ground arith))
Step-Inv {s} {f} c (finds here to_caller) = (f, (ground arith))
Step-Inv {s} {f} c (finds_none here) = (f, (ground arith))
Step-Inv {s} {f} c (sleeps here e) = (
  flags false true true false,
  ground (arith, sym (idle_fields f) ∙ ap idle_flags (sym c.fields) ∙ e),
)
Step-Inv {s} {f} c (stays_awake here e) = (f, (ground arith))
Step-Inv {s} {f} c (wakes_up here more) = (f, (ground arith))
Step-Inv {s} {f} c (enables here e) = (
  flags true false false false,
  ground (arith, sym (prologue_fields f) ∙ ap prologue_flags (sym c.fields) ∙ e),
)
Step-Inv {s} {f} c (checks_again here e) = (f, (ground arith))
Step-Inv {s} {f} c (disables here) =
    (record f { interruptible = false }, rw (c.fields, drop-interruptible f) (ground arith))
Step-Inv {s} {f} c (is_interrupted here more) =
    (record f { interruptible = false }, rw (c.fields, drop-interruptible f) (ground arith))
Step-Inv {s} {f} c (ignores away more) = (f, (ground arith))
Step-Inv {s} {f} c (enables_int here) = (f, (ground arith))
Step-Inv {s} {f} c (schedules here) = (f, (ground arith))
Step-Inv {s} {f} c (drops here more) = (f, (ground arith))
Step-Inv {s} {f} c (fails more) = (f, (ground arith))
Step-Inv {s} {f} c (stops_self here) =
    (record f { stop = true }, rw (c.fields, add-stop f) (ground arith))
Step-Inv {s} {f} c (stops_open here) =
    (record f { stop = true }, rw (c.fields, add-stop f) (ground arith))
Step-Inv {s} {f} c (enters here e) = (f, (ground arith))
Step-Inv {s} {f} c (leaves here e) = (f, (ground arith))

Steps-Inv : {b : Bool} {s t : State} {f : Flags} → Inv b s f → Steps b s t → (g : Flags) × Inv b t g
Steps-Inv {f} c stay = (f, c)
Steps-Inv c (step run last) = let (_, d) = Steps-Inv c run in Step-Inv d last

pub reached-Inv : {b : Bool} {s : State} → Steps b start s → (f : Flags) × Inv b s f
reached-Inv {b} run = Steps-Inv (start-Inv b) run

pub idle_flag : {b : Bool} {s : State} {f : Flags} → Inv b s f → has_flag s.flags flag_idle ≡ f.idle
idle_flag {f} c = ap (λ x. has_flag x flag_idle) c.fields ∙ has-idle f

pub pending_flag :
    {b : Bool} {s : State} {f : Flags}
    → Inv b s f
    → has_flag s.flags flag_interrupt_pending ≡ f.pending
pending_flag {f} c = ap (λ x. has_flag x flag_interrupt_pending) c.fields ∙ has-pending f
