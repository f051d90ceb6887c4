-- ===== src/Worker/Flags.antt =====
-- The flags of prs/worker.c as fields. What the accesses do is checked on each of the sixteen values.
use prs.Base.{
  ℕ, ◌+◌, ◌*◌, ◌≡◌, refl, Bool, true, false, not, ◌&&◌, ◌||◌, none, some, ◌==◌, if◌then◌else◌,
  eq_of_test, arith,
}
use prs.Worker.{
  flag_interruptible, flag_interrupt_pending, flag_idle, flag_stop, has_flag, add_flag, drop_flag,
  idle_flags, prologue_flags, leave, choose, go_on, turn, post_rest, post_idle, wake,
  interrupt_thread, answer,
}
use prs.Base.Result.{ok, already_exists, locked}

pub record Flags : Type 0 where
  pub interruptible : Bool
  pub pending : Bool
  pub idle : Bool
  pub stop : Bool

abbrev pub flags : (interruptible pending idle stop : Bool) → Flags
flags i p d s = record { interruptible = i; pending = p; idle = d; stop = s }

bit : Bool → ℕ
bit true = 1
bit false = 0

unfoldable pub encode : Flags → ℕ
unfolding bit
encode f = bit f.interruptible + 2 * bit f.pending + 4 * bit f.idle + 8 * bit f.stop

both : (Bool → Bool) → Bool
both p = p true && p false

both_sound : (p : Bool → Bool) → both p ≡ true → (b : Bool) → p b ≡ true
unfolding both
both_sound p all true = ground arith
both_sound p all false = ground arith

every : (Flags → Bool) → Bool
unfolding both
every p = both (λ i. both (λ q. both (λ d. both (λ s. p (flags i q d s)))))

every_sound : (p : Flags → Bool) → every p ≡ true → (f : Flags) → p f ≡ true
unfolding every
every_sound p all f =
    let at_stop : Bool → Bool = λ x. p (flags f.interruptible f.pending f.idle x) in
    let at_idle : Bool → Bool = λ x. both (λ s. p (flags f.interruptible f.pending x s)) in
    let at_pending : Bool → Bool = λ x. both (λ d. both (λ s. p (flags f.interruptible x d s))) in
    let at_interruptible : Bool → Bool =
      λ x. both (λ q. both (λ d. both (λ s. p (flags x q d s)))) in
    both_sound at_stop
      (both_sound at_idle
        (both_sound at_pending (both_sound at_interruptible all f.interruptible) f.pending) f.idle)
      f.stop

same : Bool → Bool → Bool
same true b = b
same false b = not b

eq_of_same : (a b : Bool) → same a b ≡ true → a ≡ b
unfolding same
eq_of_same true b h = ground arith
eq_of_same false b h = ground arith

-- A fact on numbers, and one on tests, from a check of all values.
number : (a b : Flags → ℕ) → every (λ f. a f == b f) ≡ true → (f : Flags) → a f ≡ b f
number a b all f = eq_of_test (a f) (b f) (every_sound (λ f. a f == b f) all f)

test : (a b : Flags → Bool) → every (λ f. same (a f) (b f)) ≡ true → (f : Flags) → a f ≡ b f
test a b all f = eq_of_same (a f) (b f) (every_sound (λ f. same (a f) (b f)) all f)

pub has-interruptible : (f : Flags) → has_flag (encode f) flag_interruptible ≡ f.interruptible
unfolding every same encode
has-interruptible = test (λ f. has_flag (encode f) flag_interruptible) (λ f. f.interruptible) refl

pub has-pending : (f : Flags) → has_flag (encode f) flag_interrupt_pending ≡ f.pending
unfolding every same encode
has-pending = test (λ f. has_flag (encode f) flag_interrupt_pending) (λ f. f.pending) refl

pub has-idle : (f : Flags) → has_flag (encode f) flag_idle ≡ f.idle
unfolding every same encode
has-idle = test (λ f. has_flag (encode f) flag_idle) (λ f. f.idle) refl

pub has-stop : (f : Flags) → has_flag (encode f) flag_stop ≡ f.stop
unfolding every same encode
has-stop = test (λ f. has_flag (encode f) flag_stop) (λ f. f.stop) refl

pub encode-zero :
    (f : Flags) → (encode f == 0) ≡ not (f.interruptible || (f.pending || (f.idle || f.stop)))
unfolding every same encode
encode-zero =
    test (λ f. encode f == 0) (λ f. not (f.interruptible || (f.pending || (f.idle || f.stop)))) refl

pub add-pending :
    (f : Flags) → add_flag flag_interrupt_pending (encode f) ≡ encode (record f { pending = true })
unfolding every encode add_flag
add-pending =
    number (λ f. add_flag flag_interrupt_pending (encode f))
      (λ f. encode (record f { pending = true })) refl

pub add-stop : (f : Flags) → add_flag flag_stop (encode f) ≡ encode (record f { stop = true })
unfolding every encode add_flag
add-stop = number (λ f. add_flag flag_stop (encode f)) (λ f. encode (record f { stop = true })) refl

pub drop-pending :
    (f : Flags)
    → drop_flag flag_interrupt_pending (encode f) ≡ encode (record f { pending = false })
unfolding every encode drop_flag
drop-pending =
    number (λ f. drop_flag flag_interrupt_pending (encode f))
      (λ f. encode (record f { pending = false })) refl

pub drop-idle : (f : Flags) → drop_flag flag_idle (encode f) ≡ encode (record f { idle = false })
unfolding every encode drop_flag
drop-idle =
    number (λ f. drop_flag flag_idle (encode f)) (λ f. encode (record f { idle = false })) refl

pub drop-interruptible :
    (f : Flags)
    → drop_flag flag_interruptible (encode f) ≡ encode (record f { interruptible = false })
unfolding every encode drop_flag
drop-interruptible =
    number (λ f. drop_flag flag_interruptible (encode f))
      (λ f. encode (record f { interruptible = false })) refl

-- The decisions of the source, on the fields.
pub turn_fields :
    (f : Flags)
    → turn (encode f) ≡ (if f.stop then leave else (if f.pending then choose else go_on))
unfolding turn
turn_fields f = rw (has-stop f, has-pending f) refl

pub idle_fields :
    (f : Flags)
    → idle_flags (encode f) ≡ (
        if not (f.interruptible || (f.pending || (f.idle || f.stop)))
        then some (encode (flags false true true false))
        else none)
unfolding idle_flags encode
idle_fields f = rw (encode-zero f) refl

pub prologue_fields :
    (f : Flags)
    → prologue_flags (encode f) ≡ (
        if not (f.interruptible || (f.pending || (f.idle || f.stop)))
        then some (encode (flags true false false false))
        else none)
unfolding prologue_flags encode
prologue_fields f = rw (encode-zero f) refl

pub post_rest_fields :
    (interrupt : Bool) (f : Flags)
    → post_rest interrupt (encode f) ≡ (
        if interrupt
        then (if f.interruptible
            then (if not f.pending then interrupt_thread else answer already_exists)
            else answer locked)
        else answer ok)
unfolding post_rest
post_rest_fields interrupt f = rw (has-interruptible f, has-pending f) refl

pub post_idle_fields :
    (interrupt : Bool) (f : Flags)
    → post_idle interrupt (encode f) ≡ (if f.idle then wake else post_rest interrupt (encode f))
unfolding post_idle
post_idle_fields interrupt f = rw (has-idle f) refl
