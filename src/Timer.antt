-- ===== src/Timer.antt =====
-- prs/timer.c: timers on four wheels of 256 slots. The lists of the slots, the temporary list and the
-- queue hold entries by content, in order; an entry is named by its position in the pool, as its
-- pointer is. Ticks are 32 bits wide (include/prs/config.h), `prs_int_t` is 64 bits wide. Functions run
-- without interference. `none` stands for a fatal error, for an assertion that fails, and for an access
-- out of the bounds of the lists.
pub mod Laws
pub mod Tick
mod Tests
use prs.Base.{
  ℕ, zero, suc, ◌+◌, ◌-◌, ◌*◌, ◌/◌, ◌^◌, ◌%◌, Bool, true, false, Option, none, some, List, [], ◌∷◌,
  ◌++◌, bit_and, ◌==◌, ltb, leb, if◌then◌else◌, update,
}
use prs.Base.Partial.{◌>>=◌}
use prs.Pool
use prs.Pool.{Pool}
use prs.Bitops.{hsb_uint32}
use Prim.Native.Nat.{bit_xor}

abbrev pub max_wheels : ℕ
max_wheels = 4

abbrev pub bits_per_wheel : ℕ
bits_per_wheel = 32 / max_wheels

abbrev pub slots_per_wheel : ℕ
slots_per_wheel = 2 ^ bits_per_wheel

-- Arithmetic on ticks wraps.
abbrev pub ticks : ℕ → ℕ
ticks n = n % 2 ^ 32

pub record Entry : Type 0 where
  pub start : ℕ
  pub end : ℕ
  pub event : ℕ
  pub event_type : ℕ

-- `entries` is the data of the pool.
pub record Timer : Type 0 where
  pub lists : (wheel slot : ℕ) → List ℕ
  pub tmp_list : List ℕ
  pub pool : Pool
  pub entries : ℕ → Entry
  pub queued : List ℕ
  pub now : ℕ

-- What the timer calls of prs/event.c, on a world `W`: `none` where an assertion fails there.
pub record Events (W : Type 0) : Type 0 where
  pub signal : W → (event type : ℕ) → Option W
  pub unref : W → (event : ℕ) → Option W

abbrev pub fill : Timer → ℕ → Entry → Pool × Option ℕ × ℕ → Option (Timer × ℕ)
fill t clock e (pool, none, id) = none
fill t clock e (pool, some entry, id) =
    if id == Pool.Header.id_invalid
    then none
    else some (
      record t {
        pool = (Pool.lock (Pool.lock_first pool id) id).0;
        entries = update t.entries entry e;
        queued = t.queued ++ entry ∷ [];
      },
      entry,
    )

-- `clock` is what `prs_clock_get` returns. The result is the new entry.
unfoldable pub queue : Timer → (clock event event_type timeout : ℕ) → Option (Timer × ℕ)
queue t clock event event_type timeout =
    let e : Entry = record {
      start = clock;
      end = ticks (clock + timeout);
      event = event;
      event_type = event_type;
    } in
    fill t clock e (Pool.alloc t.pool)

unfoldable pub get_start : Timer → ℕ → ℕ
get_start t entry = (t.entries entry).start

unfoldable pub cancel : Timer → ℕ → Timer
cancel t entry = record t { pool = (Pool.unlock t.pool (Pool.get_id_of t.pool entry)).0 }

-- The wheel and the slot of a delay.
abbrev pub wheel_of : Option ℕ → Option ℕ
wheel_of none = none
wheel_of (some hsb) = some (hsb / bits_per_wheel)

unfoldable pub slot_of : (end wheel : ℕ) → ℕ
slot_of end wheel =
    let wheel_shift = wheel * bits_per_wheel in
    bit_and (ticks (end / 2 ^ wheel_shift + 2 ^ 32 - (if wheel == 0 then 0 else 1)))
      (slots_per_wheel - 1)

-- `prs_idllist_insert_before(list, 0, ...)` on the list of the slot.
abbrev pub insert : Timer → (entry wheel slot : ℕ) → Timer
insert t entry wheel slot = record t {
  lists = update t.lists wheel (update (t.lists wheel) slot (t.lists wheel slot ++ entry ∷ []));
}

module _ {W : Type 0} (events : Events W) where
  -- What follows the attempt to free the entry.
  unfoldable pub place : W → Timer → (entry delay : ℕ) → Pool × Bool → Option (W × Timer)
  unfolding slot_of
  place w t entry delay (pool, true) = do
    w' ← events.unref w (t.entries entry).event
    some (w', record t { pool = pool })
  place w t entry delay (pool, false) = do
    wheel ← wheel_of (hsb_uint32 delay)
    some (w, insert (record t { pool = pool }) entry wheel (slot_of (t.entries entry).end wheel))

  -- The destructor runs where the last reference goes, and changes nothing in the pool.
  unfoldable pub queue_internal : W → Timer → (entry : ℕ) → Option (W × Timer)
  unfolding place
  queue_internal w t entry =
      let e = t.entries entry in
      let id = Pool.get_id_of t.pool entry in
      let delay = ticks (e.end + 2 ^ 32 - t.now) in
      let placed = place w t entry delay (Pool.try_unlock_final_dest t.pool id (λ p _. p)) in
      if delay == 0
      then (events.signal w e.event e.event_type >>= λ w'.
          some (w', record t { pool = (Pool.unlock t.pool id).0 }))
      else placed

  -- The loops that take the entries of the temporary list, and of the queue, one by one.
  unfoldable pub queue_all : List ℕ → W → Timer → Option (W × Timer)
  unfolding queue_internal
  queue_all [] w t = some (w, t)
  queue_all (entry ∷ entries) w t = do (w', t') ← queue_internal w t entry; queue_all entries w' t'

-- `elapsed >> count` on 32 bits: what the machine yields for a count that is too large is a parameter.
abbrev pub shift_right : (wide : ℕ → ℕ → ℕ) → (elapsed count : ℕ) → ℕ
shift_right wide elapsed count = if ltb count 32 then elapsed / 2 ^ count else wide elapsed count

-- `elapsed_slots`, an `int`: a value with the highest bit set is negative.
unfoldable pub elapsed_slots : (wide : ℕ → ℕ → ℕ) → (elapsed wheel : ℕ) → ℕ
elapsed_slots wide elapsed wheel =
    let slots = shift_right wide elapsed (wheel * slots_per_wheel) in
    if leb (2 ^ 31) slots then 0 else (if ltb slots_per_wheel slots then slots_per_wheel else slots)

-- The lists of the slots from `slot` on are appended to the temporary list.
unfoldable pub collect_slots : (left : ℕ) → (wheel slot : ℕ) → Timer → Option Timer
collect_slots zero wheel slot t = some t
collect_slots (suc left) wheel slot t =
    let moved = record t {
      tmp_list = t.tmp_list ++ t.lists wheel slot;
      lists = update t.lists wheel (update (t.lists wheel) slot []);
    } in
    let rest = collect_slots left wheel (slot + 1) moved in
    if ltb slot slots_per_wheel then rest else none

unfoldable pub collect_wheels :
    (wide : ℕ → ℕ → ℕ) → (left : ℕ) → (elapsed wheel : ℕ) → Timer → Option Timer
unfolding elapsed_slots collect_slots
collect_wheels wide zero elapsed wheel t = some t
collect_wheels wide (suc left) elapsed wheel t = do
  t' ←
      collect_slots (elapsed_slots wide elapsed wheel) wheel
        (bit_and (t.now / 2 ^ (wheel * bits_per_wheel)) (slots_per_wheel - 1)) t
  collect_wheels wide left elapsed (wheel + 1) t'

-- With no bit set, the quotient of the size `-1` is the greatest one, and one more than that is 0 as an `int`.
abbrev pub max_wheel : Option ℕ → ℕ
max_wheel none = 0
max_wheel (some hsb) = hsb / bits_per_wheel + 1

module _ {W : Type 0} (events : Events W) where
  -- `clock` is what `prs_clock_get` returns.
  unfoldable pub tick : (wide : ℕ → ℕ → ℕ) → (clock : ℕ) → W → Timer → Option (W × Timer)
  unfolding collect_wheels queue_all
  tick wide clock w t = do
    let elapsed = ticks (clock + 2 ^ 32 - t.now)
    let changed = bit_xor clock t.now
    t1 ← collect_wheels wide (max_wheel (hsb_uint32 changed)) elapsed 0 t
    (w2, t2) ← queue_all events t1.tmp_list w (record t1 { tmp_list = [] })
    queue_all events t2.queued w2 (record t2 { now = clock; queued = [] })
