-- ===== src/Msgq/Send.antt =====
-- How a send of prs/msgq.c reaches the task that waits.
use prs.Base.{
  ℕ, ◌+◌, ◌-◌, ◌^◌, ◌<◌, ◌≡◌, ◌≢◌, refl, ap, fun_ext, ◌∙◌, true, false, Option, some, [], ◌∷◌, ◌++◌,
  ◌==◌, update, arith, test_self,
}
use prs.Pd
use prs.Pd.{Pd}
use prs.Pd.Count.{count, max_refcnt}
use prs.Pd.Refs.{Holds, lock-count, unlock-count}
use prs.Event
use prs.Event.{World}
use prs.Msgq.{
  Filter, Msgq, event_type_send, set_event, passes, notify, filter_unref, send_locked, send,
}

-- A locked entry of the pointer directory that is unlocked is as before.
update_self : (h : ℕ → ℕ) (e v w : ℕ) → h e ≡ w → update (update h e v) e w ≡ h
update_self h e v w same = fun_ext λ j. ground (arith, same)

get_entry-put : (pd : Pd) (e h id : ℕ) → Pd.get_entry (Pd.put pd e h) id ≡ Pd.get_entry pd id
unfolding Pd.get_entry
get_entry-put pd e h id = refl

pd_back :
    (pd : Pd) (id r : ℕ)
    → Holds pd id r id
    → 0 < r
    → r + 1 < 2 ^ 12
    → Pd.unlock (Pd.put pd (Pd.get_entry pd id) (count (r + 1) id)) id ≡ (pd, false)
pd_back pd id r holds more room =
    let e = Pd.get_entry pd id in
    let locked = Pd.put pd e (count (r + 1) id) in
    let held : Holds locked id (r + 1) id = record {
      refcnt_fits = room;
      id_fits = holds.id_fits;
      header = rw (get_entry-put pd e (count (r + 1) id) id, test_self e) refl;
    } in
    let one_less : r + 1 - 1 ≡ r = omega arith in
    let some_left : (r + 1 == 1) ≡ false = ground arith in
    let some_ref : (r + 1 == 0) ≡ false = ground arith in
    rw
      (
        unlock-count held,
        get_entry-put pd e (count (r + 1) id) id,
        test_self id,
        some_ref,
        one_less,
        some_left,
      )
      (ap (λ h. (record pd { header = h }, false))
        (update_self pd.header e (count (r + 1) id) (count r id) holds.header))

-- The entry of the filter can be locked: it has a reference, and fewer than the most.
pub record Filtered (q : Msgq) (filter r : ℕ) (f : Filter) : Type 0 where
  pub found : q.filters filter ≡ some f
  pub valid : f.id ≢ Pd.id_invalid
  pub held : Holds q.pd f.id r f.id
  pub ptr : q.pd.ptr (Pd.get_entry q.pd f.id) ≡ filter
  pub more : 0 < r
  pub room : r + 1 < 2 ^ 12
  pub current : q.filter_id ≡ f.id

-- The queue with one more message.
abbrev pub pushed : Msgq → (msg : ℕ) → Msgq
pushed q msg = record q { queue = q.queue ++ msg ∷ [] }

-- The reference that a send takes on the filter, and gives back.
send_locked-back :
    (q : Msgq) (msg filter r : ℕ) (f : Filter) (world : World) (filters : ℕ → Option Filter)
    (g : Filter)
    → Filtered q filter r f
    → filters filter ≡ some g
    → g.id ≡ f.id
    → filter_unref
        (record q {
          queue = q.queue ++ msg ∷ [];
          pd = Pd.put q.pd (Pd.get_entry q.pd f.id) (count (r + 1) f.id);
          filters = filters;
          world = world;
        })
        filter
      ≡ some (record q { queue = q.queue ++ msg ∷ []; filters = filters; world = world })
unfolding filter_unref
send_locked-back q msg filter r f world filters g filtered here same =
    rw (here, same, pd_back q.pd f.id r filtered.held filtered.more filtered.room) refl

lock-filter :
    (q : Msgq) (filter r : ℕ) (f : Filter)
    → Filtered q filter r f
    → Pd.lock q.pd f.id ≡ (Pd.put q.pd (Pd.get_entry q.pd f.id) (count (r + 1) f.id), some filter)
lock-filter q filter r f filtered =
    let more = filtered.more in
    let room = filtered.room in
    let some_ref : (r == 0) ≡ false = ground arith in
    let fits : (r == max_refcnt) ≡ false = ground arith in
    rw (lock-count filtered.held, test_self f.id, some_ref, fits, filtered.ptr) refl

send-locked :
    (q : Msgq) (msg filter r : ℕ) (f : Filter)
    → Filtered q filter r f
    → send q msg
      ≡ send_locked
          (pushed q msg)
          msg
          (Pd.put q.pd (Pd.get_entry q.pd f.id) (count (r + 1) f.id), some filter)
unfolding send
send-locked q msg filter r f filtered =
    let valid = filtered.valid in
    let test : (f.id == Pd.id_invalid) ≡ false = ground arith in
    rw (filtered.current, test, lock-filter q filter r f filtered) refl

-- A message that is sent goes to the end of the queue. Where the filter of the receiver has an event and
-- the message passes it, the event is signalled, and taken from the filter so that no later message
-- signals it; the filter and the pointer directory are otherwise as before.
pub send-signals :
    (q : Msgq) (msg filter r state : ℕ) (f : Filter) (w : World)
    → Filtered q filter r f
    → f.event ≢ 0
    → passes f.function msg ≡ true
    → Event.signal q.world f.event event_type_send ≡ some (w, state)
    → let after = set_event (record (pushed q msg) { world = w }) filter f 0 in
      (send q msg ≡ some after) × ((later : ℕ) → send after later ≡ some (pushed after later))
unfolding notify
send-signals q msg filter r state f w filtered some_event match signalled =
    let after : Filter = record f { event = 0 } in
    let filters = update q.filters filter (some after) in
    let event : (f.event == 0) ≡ false = ground arith in
    let now : filters filter ≡ some after = rw (test_self filter) refl in
    let later_filtered : Filtered (set_event (record (pushed q msg) { world = w }) filter f 0)
        filter r after =
      record {
        found = now;
        valid = filtered.valid;
        held = filtered.held;
        ptr = filtered.ptr;
        more = filtered.more;
        room = filtered.room;
        current = filtered.current;
      } in
    (
      send-locked q msg filter r f filtered
          ∙ rw (filtered.found, event, match, signalled)
              (send_locked-back q msg filter r f w filters after filtered now refl),
      λ later.
          send-locked _ later filter r after later_filtered
          ∙ rw now
              (send_locked-back _ later filter r after w filters after later_filtered now refl),
    )
