-- ===== src/Timer/Laws.antt =====
-- Where prs/timer.c puts an entry.
use native.Mathlib.Nat.{one-le-pow}
use prs.Base.{
  ℕ, suc, ◌+◌, ◌-◌, ◌*◌, ◌/◌, ◌^◌, ◌%◌, ◌≤◌, ◌<◌, ◌≡◌, ◌≢◌, refl, ap, ◌∙◌, true, false, some,
  bit_and, ◌==◌, arith,
}
use prs.Base.Bits.{bit_and-low}
use prs.Pool
use prs.Pool.{Pool}
use prs.Pool.Fields.{fields, unlock_next-fields}
use prs.Pool.Refs.{Holds}
use prs.Bitops.Laws.{hsb_uint32-highest}
use prs.Timer.{
  Timer, Events, ticks, slots_per_wheel, bits_per_wheel, slot_of, insert, place, queue_internal,
}

pub slot_of-wheel0 : (end : ℕ) → end < 2 ^ 32 → slot_of end 0 ≡ end % 2 ^ 8
unfolding slot_of
slot_of-wheel0 end fits = omega (arith, bit_and-low 8 (ticks (end / 2 ^ 0 + 2 ^ 32 - 0)))

pub slot_of-upper :
    (end wheel : ℕ)
    → 0 < wheel
    → slot_of end wheel ≡ ticks (end / 2 ^ (wheel * 8) + 2 ^ 32 - 1) % 2 ^ 8
unfolding slot_of
slot_of-upper end wheel upper =
    let test : (wheel == 0) ≡ false = ground arith in rw test (bit_and-low 8 _)

-- An entry that the timer and the caller both refer to is not freed.
shared :
    (pool : Pool) (id r : ℕ)
    → Holds pool id (fields true r id)
    → r ≢ 1
    → Pool.try_unlock_final_dest pool id (λ p _. p) ≡ (pool, false)
unfolding Pool.try_unlock_final_dest Pool.unlock_internal
shared pool id r holds more =
    rw (holds.header, unlock_next-fields (fields true r id) holds.fits id true true) (ground arith)

-- The entry is held by more than the timer, under the ID that its header has.
pub record Kept (t : Timer) (entry : ℕ) : Type 0 where
  pub refs : ℕ
  pub held :
      Holds t.pool (Pool.get_id_of t.pool entry) (fields true refs (Pool.get_id_of t.pool entry))
  pub more : refs ≢ 1

abbrev pub delay_of : Timer → ℕ → ℕ
delay_of t entry = ticks ((t.entries entry).end + 2 ^ 32 - t.now)

module _ {W : Type 0} (events : Events W) {t : Timer} {entry : ℕ} (kept : Kept t entry) where
  -- An entry that is not due and that its task still waits for goes to the end of a list: of the
  -- wheel that the highest bit of its delay lies in, eight bits to a wheel, in the slot of its end.
  pub queue_internal-places :
      (w : W) (k : ℕ)
      → k < 32
      → 2 ^ k ≤ delay_of t entry
      → delay_of t entry < 2 ^ suc k
      → queue_internal events w t entry
        ≡ some (w, insert t entry (k / 8) (slot_of (t.entries entry).end (k / 8)))
  unfolding queue_internal place
  queue_internal-places w k fits lo hi =
      let later : (delay_of t entry == 0) ≡ false = ground (arith, one-le-pow k 2) in
      rw
        (
          later,
          shared t.pool (Pool.get_id_of t.pool entry) kept.refs kept.held kept.more,
          hsb_uint32-highest (delay_of t entry) k lo hi fits,
        )
        refl

  -- An entry whose end is past by up to 2 ^ 31 ticks, which its task still waits for, is not signalled:
  -- it is put on the last wheel.
  pub queue_internal-late :
      (w : W) (late : ℕ)
      → t.now < 2 ^ 32
      → (t.entries entry).end + late ≡ t.now
      → 0 < late
      → late ≤ 2 ^ 31
      → queue_internal events w t entry
        ≡ some (w, insert t entry 3 (slot_of (t.entries entry).end 3))
  queue_internal-late w late fits past some_late bound =
      queue_internal-places w 31 (omega arith) (omega arith) (omega arith)

  -- Where the low byte of the clock is 255, an entry that is due 256 ticks later is put into the slot of
  -- the second wheel that the next tick empties, and when that tick empties it, the entry is put back
  -- there: the slot is not looked at again for 65536 ticks.
  pub queue_internal-back :
      (w : W)
      → t.now % 256 ≡ 255
      → t.now + 256 < 2 ^ 32
      → (t.entries entry).end ≡ t.now + 256
      → queue_internal events w t entry
        ≡ some (w, insert t entry 1 (bit_and (t.now / 2 ^ bits_per_wheel) (slots_per_wheel - 1)))
  queue_internal-back w low fits due =
      let slot : slot_of (t.entries entry).end 1 ≡ bit_and (t.now / 2 ^ 8) 255 = omega (
        arith,
        slot_of-upper (t.entries entry).end 1 (omega arith),
        bit_and-low 8 (t.now / 2 ^ 8),
      ) in
      queue_internal-places w 8 (omega arith) (omega arith) (omega arith)
      ∙ ap (λ n. some (w, insert t entry 1 n)) slot
