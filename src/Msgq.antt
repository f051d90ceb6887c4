-- ===== src/Msgq.antt =====
-- prs/msgq.c: the message queue of a task, up to the calls of the scheduler. The queue holds the
-- addresses of its messages, the oldest first, as prs/lib/ds/mpsciq.c keeps them. A filter's function is
-- taken with its user data; `none` is the null function, which every message passes. Functions run
-- without interference. `none` stands for a fatal error, for an assertion that fails, and for the use of a
-- filter or an event that is freed.
pub mod Search
pub mod Send
pub mod Receive
pub mod Poll
pub mod Wake
mod Tests
use prs.Base.{
  ℕ, ◌+◌, ◌-◌, Bool, true, false, not, ◌&&◌, Option, none, some, List, [], ◌∷◌, ◌++◌, bit_and, ◌==◌,
  leb, ltb, if◌then◌else◌, update,
}
use prs.Base.Partial.{◌>>=◌}
use prs.Base.Result.{Result, ok}
use prs.Pd
use prs.Pd.{Pd}
use prs.Task.{Task}
use prs.Event
use prs.Event.{World, state_signaled}
use prs.Sched.{is_ok}

abbrev pub event_type_send : ℕ
event_type_send = 1

abbrev pub event_type_timeout : ℕ
event_type_timeout = 2

abbrev pub event_type_free : ℕ
event_type_free = 3

pub record Filter : Type 0 where
  pub id : ℕ
  pub event : ℕ
  pub function : Option (ℕ → Bool)

-- With the filters that are allocated, by address, and the world of tasks and events.
pub record Msgq : Type 0 where
  pub queue : List ℕ
  pub pd : Pd
  pub filter_id : ℕ
  pub filters : ℕ → Option Filter
  pub world : World

-- `pd` is the directory of the parameters, and `gpd` what `prs_gpd_get` returns. The ID of the filter is
-- left as the zeroed memory has it.
unfoldable pub create :
    (memory queue_memory : Bool)
    → (pd gpd : Option Pd) → (filters : ℕ → Option Filter) → World
    → Option Msgq
create memory queue_memory pd gpd filters w =
    let new : Pd → Msgq =
      λ d. record { queue = []; pd = d; filter_id = 0; filters = filters; world = w } in
    let found : Option Msgq = elim pd [
      | some d ↦ some (new d)
      | none ↦ gpd >>= λ d. some (new d)
    ] in
    if memory then (if queue_memory then found else none) else none

abbrev pub set_event : Msgq → (filter : ℕ) → Filter → (event : ℕ) → Msgq
set_event q filter f event = record q {
  filters = update q.filters filter (some (record f { event = event }));
}

abbrev pub created : Msgq → (filter : ℕ) → Option (ℕ → Bool) → Pd × Result × ℕ → Option Msgq
created q filter function (pd, result, id) =
    if is_ok result
    then some (record q {
      pd = pd;
      filters = update q.filters filter (some (record { id = id; event = 0; function = function }));
    })
    else none

-- `filter` is what `malloc` returns.
unfoldable pub filter_create : Msgq → (filter : ℕ) → Option (ℕ → Bool) → Option Msgq
filter_create q filter function =
    if filter == 0 then none else created q filter function (Pd.alloc_and_lock q.pd filter)

abbrev pub unlocked : Msgq → (filter : ℕ) → Pd × Bool → Msgq
unlocked q filter (pd, must_free) = record q {
  pd = pd;
  filters = if must_free then update q.filters filter none else q.filters;
}

unfoldable pub filter_unref : Msgq → (filter : ℕ) → Option Msgq
filter_unref q filter = do f ← q.filters filter; some (unlocked q filter (Pd.unlock q.pd f.id))

-- `event` is what `malloc` returns, and `task` the current task.
unfoldable pub alloc_event :
    Msgq → (filter event task_id : ℕ) → Task → (event_sources : ℕ) → Option Msgq
alloc_event q filter event task_id task event_sources = do
  w ← Event.create q.world event task_id task (event_sources + 1)
  f ← q.filters filter
  some (set_event (record q { world = w }) filter f event)

-- With the queue comes whether the event was signalled before.
unfoldable pub free_event : Msgq → (filter event : ℕ) → Option (Msgq × Bool)
free_event q filter event = do
  f ← q.filters filter
  let cleared = set_event q filter f 0
  w ←
      (if f.event == 0
        then some q.world
        else (if f.event == event then (Event.unref q.world event >>= λ r. some r.0) else none))
  (w', event_state) ← Event.signal w event event_type_free
  some (record cleared { world = w' }, not (bit_and event_state state_signaled == 0))

-- Whether a message passes a function.
abbrev pub passes : Option (ℕ → Bool) → (msg : ℕ) → Bool
passes none msg = true
passes (some function) msg = function msg

-- What `prs_msgq_send` does with the filter that it has locked.
unfoldable pub notify : Msgq → (filter msg : ℕ) → Option Msgq
notify q filter msg = do
  f ← q.filters filter
  let signalled = Event.signal q.world f.event event_type_send >>= λ r.
      some (set_event (record q { world = r.0 }) filter f 0)
  if f.event == 0 then some q else (if passes f.function msg then signalled else some q)

abbrev pub send_locked : Msgq → (msg : ℕ) → Pd × Option ℕ → Option Msgq
send_locked q msg (pd, none) = some (record q { pd = pd })
send_locked q msg (pd, some filter) =
    notify (record q { pd = pd }) filter msg >>= λ q'. filter_unref q' filter

unfoldable pub send : Msgq → (msg : ℕ) → Option Msgq
send q msg =
    let pushed : Msgq = record q { queue = q.queue ++ msg ∷ [] } in
    let found = send_locked pushed msg (Pd.lock q.pd q.filter_id) in
    if q.filter_id == Pd.id_invalid then some pushed else found

unfoldable pub filter_reset : Msgq → (filter : ℕ) → Option Msgq
unfolding filter_unref
filter_reset q filter = do
  f ← q.filters filter
  let unref = filter_unref (record q { filter_id = Pd.id_invalid }) filter
  if q.filter_id == f.id then unref else none

unfoldable pub filter_set : Msgq → (filter : ℕ) → Option Msgq
filter_set q filter = do f ← q.filters filter; some (record q { filter_id = f.id })

-- The nodes from the hint on.
unfoldable pub from_hint : (hint : ℕ) → List ℕ → List ℕ
from_hint hint [] = []
from_hint hint (node ∷ nodes) =
    let rest = from_hint hint nodes in if node == hint then node ∷ nodes else rest

-- The loop of `prs_msgq_search`: the message, and the node that `*hint` is set to.
unfoldable pub search_loop : Option (ℕ → Bool) → (nodes : List ℕ) → (hint prev : ℕ) → Option ℕ × ℕ
search_loop function [] hint prev = (none, prev)
search_loop function (msg ∷ nodes) hint prev =
    let rest = search_loop function nodes hint msg in
    if passes function msg then (some msg, hint) else rest

-- A hint of 0 is none.
unfoldable pub search : Option (ℕ → Bool) → (queue : List ℕ) → (hint : ℕ) → Option ℕ × ℕ
unfolding from_hint search_loop
search function queue hint =
    if hint == 0
    then search_loop function queue hint (elim queue [ [] ↦ 0 | node ∷ _ ↦ node ])
    else search_loop function (from_hint hint queue) hint hint
