-- ===== src/Timer/Tests.antt =====
-- Runs of the timer of prs/timer.c, and each theorem at an input.
use prs.Base.{
  ℕ, ◌^◌, ◌%◌, ◌≡◌, refl, false, true, some, List, [], ◌∷◌, arith, ◌==◌, ◌&&◌, if◌then◌else◌,
}
use prs.Base.Partial.{◌>>=◌}
use prs.Pool
use prs.Pool.{Pool}
use prs.Pool.Fields.{fields, encode}
use prs.Timer.{Timer, Events, tick}
use prs.Timer.Laws.{Kept}
use prs.Timer.Tick.{emptied, unlock_all, signal_all, tick-signals}

-- Entry 1 of the pool, with the references of the timer and of the caller.
abbrev pool : Pool
pool = record {
  area = false;
  header = λ j. if j == 1 then encode (fields true 2 1) else (2 ^ 63);
  bytes = λ _. [];
  data_size = 8;
  entry_size = 16;
  max_entries = 4;
  max_entries_mask = 3;
  write_index = 2;
}

abbrev timer : (now end : ℕ) → Timer
timer now end = record {
  lists = λ wheel slot. if (slot == now % 256) && (wheel == 0) then 1 ∷ [] else [];
  tmp_list = [];
  pool = pool;
  entries = λ _. record { start = 0; end = end; event = 5; event_type = 2 };
  queued = [];
  now = now;
}

-- The world is the list of the events signalled, the last one first.
abbrev log : Events (List ℕ)
log = record { signal = λ w event type. some (event ∷ w); unref = λ w event. some w }

timer-Kept : (now end : ℕ) → Kept (timer now end) 1
unfolding Pool.get_id_of Pool.get_entry Pool.Header.get_id
timer-Kept now end = record {
  refs = 2;
  held = record {
    fits = record { refcnt_fits = omega arith; id_fits = omega arith };
    header = refl;
  };
  more = omega arith;
}

tick-signals_example : tick log (λ e _. e) 4 [] (timer 3 3) ≡ (
    signal_all log (1 ∷ []) (timer 3 3).entries [] >>= λ v.
    some
      (v, record (emptied (timer 3 3) 3) { pool = unlock_all (1 ∷ []) pool; now = 4; queued = [] }))
tick-signals_example =
    tick-signals log (λ e _. e) [] (timer 3 3) (omega arith) (omega arith) refl refl (refl, tt)
