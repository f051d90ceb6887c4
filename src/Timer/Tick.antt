-- ===== src/Timer/Tick.antt =====
-- What a tick of prs/timer.c takes from the wheels.
use Prim.Native.Nat.{bit_xor}
use prs.Base.{
  ℕ, zero, suc, ◌+◌, ◌-◌, ◌*◌, ◌/◌, ◌^◌, ◌%◌, ◌<◌, ◌≡◌, ◌≢◌, refl, subst, true, Option, none, some,
  List, [], ◌∷◌, bit_and, ◌==◌, ltb, update, arith,
}
use prs.Base.Bits.{bit_and-low}
use prs.Base.Xor.{xor-low, xor_zero}
use prs.Base.Partial.{◌>>=◌}
use prs.Pool
use prs.Pool.{Pool}
use prs.Bitops.{hsb_uint32}
use prs.Bitops.Laws.{highest_bit, hsb_uint32-highest}
use prs.Timer.{Timer, Entry, Events, ticks, queue_internal, queue_all, max_wheel, tick}

-- Each entry of a list is due now.
abbrev pub AllDue : (ℕ → Entry) → (now : ℕ) → List ℕ → Type 0
AllDue entries now [] = Unit
AllDue entries now (entry ∷ ids) = ((entries entry).end ≡ now) × AllDue entries now ids

-- The references of the timer to them are dropped.
abbrev pub unlock_all : List ℕ → Pool → Pool
unlock_all [] pool = pool
unlock_all (entry ∷ ids) pool = unlock_all ids (Pool.unlock pool (Pool.get_id_of pool entry)).0

-- The timer with the list of one slot of the first wheel empty.
abbrev pub emptied : Timer → (slot : ℕ) → Timer
emptied t slot = record t { lists = update t.lists 0 (update (t.lists 0) slot []) }

max_wheel_small : (changed : ℕ) → changed < 2 ^ 8 → changed ≢ 0 → max_wheel (hsb_uint32 changed) ≡ 1
max_wheel_small zero fits some_bit = absurd (some_bit refl)
max_wheel_small (suc c) fits some_bit =
    let h = highest_bit 8 (suc c) (omega arith) fits in
    rw (hsb_uint32-highest (suc c) h.pos h.lo h.hi (omega (arith, h.fits))) (omega (arith, h.fits))

-- A clock that advances by one without a carry out of its low byte changes the low byte only.
changed_low : (now : ℕ) → now % 2 ^ 8 < 255 → bit_xor (now + 1) now < 2 ^ 8
changed_low now inside =
    let before : now / 2 ^ 8 * 2 ^ 8 + now % 2 ^ 8 ≡ now = omega arith in
    let after : now / 2 ^ 8 * 2 ^ 8 + (now % 2 ^ 8 + 1) ≡ now + 1 = omega arith in
    subst (λ n. bit_xor (now + 1) n < 2 ^ 8) before
      (subst (λ n. bit_xor n (now / 2 ^ 8 * 2 ^ 8 + now % 2 ^ 8) < 2 ^ 8) after
        (xor-low 8 (now / 2 ^ 8) (now % 2 ^ 8 + 1) (now % 2 ^ 8) (omega arith) (omega arith)))

module _ {W : Type 0} (events : Events W) where
  -- Their events are signalled, in order.
  abbrev pub signal_all : List ℕ → (ℕ → Entry) → W → Option W
  signal_all [] entries w = some w
  signal_all (entry ∷ ids) entries w =
      events.signal w (entries entry).event (entries entry).event_type >>= λ w'.
      signal_all ids entries w'

  after_signal :
      (o : Option W) (h : W × Timer → Option (W × Timer)) (g : W → Option W) (t t' : Timer)
      → ((w : W) → h (w, t) ≡ (g w >>= λ v. some (v, t')))
      → ((o >>= λ w. some (w, t)) >>= h) ≡ ((o >>= g) >>= λ v. some (v, t'))
  after_signal none h g t t' same = refl
  after_signal (some w) h g t t' same = same w

  queue_all-signals :
      (ids : List ℕ) (w : W) (t : Timer)
      → t.now < 2 ^ 32
      → AllDue t.entries t.now ids
      → queue_all events ids w t
        ≡ (signal_all ids t.entries w >>= λ v. some (v, record t { pool = unlock_all ids t.pool }))
  unfolding queue_all queue_internal
  queue_all-signals [] w t fits due = refl
  queue_all-signals (entry ∷ ids) w t fits (now_due, due) =
      let test : (ticks ((t.entries entry).end + 2 ^ 32 - t.now) == 0) ≡ true = ground arith in
      let next : Timer = record t { pool = (Pool.unlock t.pool (Pool.get_id_of t.pool entry)).0 } in
      rw test (
        after_signal (events.signal w (t.entries entry).event (t.entries entry).event_type) _ _ next
          _ (λ v. queue_all-signals ids v next fits due))

  -- The steps of a tick that advances the clock by one within the first wheel.
  tick-slot :
      (wide : ℕ → ℕ → ℕ) (w : W) (t : Timer)
      → t.now + 1 < 2 ^ 32
      → t.now % 2 ^ 8 < 255
      → t.tmp_list ≡ []
      → tick events wide (t.now + 1) w t ≡ (
          queue_all events (t.lists 0 (t.now % 2 ^ 8)) w (emptied t (t.now % 2 ^ 8)) >>= λ r.
          queue_all events r.1.queued r.0 (record r.1 { now = t.now + 1; queued = [] }))
  unfolding tick
  tick-slot wide w t fits inside empty =
      let elapsed : ticks (t.now + 1 + 2 ^ 32 - t.now) ≡ 1 = omega arith in
      let slot : bit_and (t.now / 2 ^ 0) (2 ^ 8 - 1) ≡ t.now % 2 ^ 8 =
        omega (arith, bit_and-low 8 (t.now / 2 ^ 0)) in
      let one_wheel : max_wheel (hsb_uint32 (bit_xor (t.now + 1) t.now)) ≡ 1 =
        max_wheel_small _ (changed_low t.now inside) (λ same.
          omega (arith, xor_zero (t.now + 1) (t.now + 1) t.now (omega arith) (omega arith) same)) in
      let in_range : ltb (t.now % 2 ^ 8) (2 ^ 8) ≡ true = ground arith in
      rw (elapsed, one_wheel, slot, in_range, empty) refl

  abbrev with_timer : Timer → W → Option (W × Timer)
  with_timer t v = some (v, t)

  abbrev requeue : (now : ℕ) → W × Timer → Option (W × Timer)
  requeue now (w, t) = queue_all events t.queued w (record t { now = now; queued = [] })

  after_all :
      (o : Option W) (t : Timer) (now : ℕ)
      → t.queued ≡ []
      → ((o >>= with_timer t) >>= requeue now)
        ≡ (o >>= with_timer (record t { now = now; queued = [] }))
  unfolding queue_all
  after_all none t now empty = refl
  after_all (some v) t now empty = rw empty refl

  -- A tick that advances the clock by one inside the first wheel, where nothing waits to be queued and
  -- every entry of the slot of the time before the tick is due at that time, signals the events of
  -- exactly these entries, in their order, drops the references of the timer to them, and empties the
  -- slot; the other slots are as before. It fails where a signal does.
  pub tick-signals :
      (wide : ℕ → ℕ → ℕ) (w : W) (t : Timer)
      → t.now + 1 < 2 ^ 32
      → t.now % 2 ^ 8 < 255
      → t.tmp_list ≡ []
      → t.queued ≡ []
      → AllDue t.entries t.now (t.lists 0 (t.now % 2 ^ 8))
      → tick events wide (t.now + 1) w t ≡ (
          signal_all (t.lists 0 (t.now % 2 ^ 8)) t.entries w >>= λ v. some (
            v,
            record (emptied t (t.now % 2 ^ 8)) {
              pool = unlock_all (t.lists 0 (t.now % 2 ^ 8)) t.pool;
              now = t.now + 1;
              queued = [];
            },
          ))
  tick-signals wide w t fits inside empty none_queued due =
      let slot = t.now % 2 ^ 8 in
      let ids = t.lists 0 slot in
      rw
        (
          tick-slot wide w t fits inside empty,
          queue_all-signals ids w (emptied t slot) (omega arith) due,
        )
        (after_all (signal_all ids t.entries w)
          (record (emptied t slot) { pool = unlock_all ids t.pool }) (t.now + 1) none_queued)
