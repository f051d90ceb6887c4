-- ===== src/Msgq/Tests.antt =====
-- Each theorem on the message queues of prs/msgq.c at an input.
use prs.Base.{
  ℕ, ◌*◌, ◌^◌, ◌≡◌, refl, Bool, true, false, Option, none, some, [], ◌∷◌, arith, ◌==◌, leb,
  if◌then◌else◌,
}
use prs.Pd
use prs.Pd.{Pd}
use prs.Pd.Count.{count}
use prs.Event
use prs.Task
use prs.Task.{Task, blocked, running}
use prs.Base.Scan.{scan}
use prs.Pool.{Pool}
use prs.Timer.{Timer}
use prs.Msgq.Receive.{Receiver, Environment, wait, await, round, recv_loop, recv_internal}
use prs.Msgq.Poll.{MustNotWait}
use prs.Task.Token.{token_of}
use prs.Event.{Event, World}
use prs.Event.Laws.{Live, woken, signal-wakes}
use prs.Msgq.{
  Filter, Msgq, event_type_send, set_event, send, search, filter_create, filter_unref, alloc_event,
  free_event, notify, filter_reset, filter_set, from_hint, search_loop,
}
use prs.Msgq.Search.{first_passing, search-hint}
use prs.Msgq.Send.{Filtered, pushed, send-signals}

abbrev above : Option (ℕ → Bool)
above = some (λ m. leb 50 m)

first_passing_small : first_passing above (10 ∷ 20 ∷ []) ≡ none
unfolding first_passing
first_passing_small = refl

search-hint_example :
    (search above (10 ∷ 20 ∷ []) 0 ≡ (none, 20))
    × ((search above (10 ∷ 20 ∷ 30 ∷ 60 ∷ []) 20).0 ≡ first_passing above (10 ∷ 20 ∷ 30 ∷ 60 ∷ []))
    × ((search above (10 ∷ 20 ∷ 30 ∷ 60 ∷ []) 0).0 ≡ first_passing above (10 ∷ 20 ∷ 30 ∷ 60 ∷ []))
search-hint_example =
    search-hint above (10 ∷ []) (30 ∷ 60 ∷ []) 20 (omega arith) (omega arith, omega arith, tt)
      first_passing_small

abbrev receiver : Task
receiver = record { id = 9; state = token_of blocked 0 (4 * 2 ^ 12) }

abbrev event : Event
event = record {
  task_id = 9;
  token = token_of blocked 0 (4 * 2 ^ 12);
  initial_refcnt = 2;
  refcnt = 2;
}

abbrev world : World
world = record {
  tasks = λ i. if i == 9 then some receiver else none;
  events = λ i. if i == 64 then some event else none;
  current = 0;
  readied = [];
}

abbrev filter : Filter
filter = record { id = 1; event = 64; function = above }

abbrev pd : Pd
pd = record {
  area = false;
  header = λ j. if j == 1 then count 1 1 else 0;
  ptr = λ j. if j == 1 then 500 else 0;
  max_entries = 4;
  max_entries_mask = 3;
  write_index = 1;
}

abbrev waiting : Msgq
waiting = record {
  queue = 10 ∷ [];
  pd = pd;
  filter_id = 1;
  filters = λ i. if i == 500 then some filter else none;
  world = world;
}

waiting-Filtered : Filtered waiting 500 1 filter
unfolding Pd.get_entry
waiting-Filtered = record {
  found = refl;
  valid = omega arith;
  held = record { refcnt_fits = omega arith; id_fits = omega arith; header = refl };
  ptr = refl;
  more = omega arith;
  room = omega arith;
  current = refl;
}

live : Live world 64 event
live = record { found = refl; some_ref = omega arith; refs = omega arith; small = omega arith }

signalled : Event.signal world 64 event_type_send ≡ some (woken world 64 event receiver 1, 0)
signalled = signal-wakes live receiver 1 refl refl

abbrev after : Msgq
after =
    set_event (record (pushed waiting 60) { world = woken world 64 event receiver 1 }) 500 filter 0

send-signals_example :
    (send waiting 60 ≡ some after) × ((later : ℕ) → send after later ≡ some (pushed after later))
send-signals_example =
    send-signals waiting 60 500 1 0 filter (woken world 64 event receiver 1) waiting-Filtered
      (omega arith) refl signalled

program : Unit {0}
unfolding Pd.get_id Pd.test_refcnt Pd.get_entry Pd.is_allocatable Pd.alloc_header Pd.can_take
    Pd.take_index Pd.alloc_and_lock Pd.lock_next Pd.unlock_next Pd.lock_with Pd.lock Pd.unlock_with
    Pd.unlock scan Event.new_event Event.create Event.destroy Event.drop_ref Event.unblock_in
    Event.signal_task Event.add_signaled Event.unref_event Event.unref_internal Event.signal
    Event.unref Task.get_state_of Task.get_cause_of Task.get_count_of Task.set_token Task.block
    Task.unblock_token Task.unblock Task.get_last_unblock_cause filter_create filter_unref
    alloc_event free_event notify send filter_reset filter_set from_hint search_loop search wait
    await round recv_loop recv_internal first_passing
program = tt

-- The task runs, and waits for a message above 50; while it waits, 60 is sent.
abbrev idle : Msgq
idle = record {
  queue = 10 ∷ [];
  pd = record pd { header = λ j. 0; ptr = λ j. 0 };
  filter_id = 0;
  filters = λ i. none;
  world = record {
    tasks = λ i.
        if i == 9 then some (record { id = 9; state = token_of running 0 (4 * 2 ^ 12) }) else none;
    events = λ i. none;
    current = 0;
    readied = [];
  };
}

abbrev no_pool : Pool
no_pool = record {
  area = false;
  header = λ j. 0;
  bytes = λ j. [];
  data_size = 8;
  entry_size = 16;
  max_entries = 4;
  max_entries_mask = 3;
  write_index = 1;
}

abbrev timer : Timer
timer = record {
  lists = λ wheel slot. [];
  tmp_list = [];
  pool = no_pool;
  entries = λ i. record { start = 0; end = 0; event = 0; event_type = 0 };
  queued = [];
  now = 0;
}

abbrev environment : Environment
environment = record {
  task_id = 9;
  filter_at = λ s. 500;
  event_at = λ s. 64;
  clock_get = λ s. 0;
  schedule = λ q t. (elim (send q 60) [ some q' ↦ q' | none ↦ q ], t);
}

idle-MustNotWait : MustNotWait (first_passing above (10 ∷ [])) true 0
unfolding first_passing
idle-MustNotWait = (refl, refl)

abbrev behind : Option (Receiver × Option ℕ) → Receiver
behind none = record { msgq = idle; timer = timer; hint = 0; wait_left = 0 }
behind (some r) = r.0

woken_run :
    let r = recv_internal 2 environment above false 0 idle timer in
    (r ≡ some (behind r, some 60)) × ((behind r).msgq.queue ≡ 10 ∷ [])
unfolding program
woken_run = (refl, refl)
