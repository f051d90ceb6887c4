-- ===== src/Event/Tests.antt =====
-- Each theorem on the events of prs/event.c at an input.
use prs.Base.{◌*◌, ◌^◌, ◌≡◌, refl, none, some, [], arith, bit_or, ◌==◌, if◌then◌else◌}
use prs.Task.{Task, blocked}
use prs.Task.Token.{token_of}
use prs.Task.Laws.{Has}
use prs.Event.{Event, World, state_signaled, state_freed, signal}
use prs.Event.Laws.{Live, drop, woken, signal-twice}

abbrev task : Task
task = record { id = 9; state = token_of blocked 0 (4 * 2 ^ 12) }

abbrev event : Event
event = record {
  task_id = 9;
  token = token_of blocked 0 (4 * 2 ^ 12);
  initial_refcnt = 2;
  refcnt = 2;
}

abbrev world : World
world = record {
  tasks = λ i. if i == 9 then some task else none;
  events = λ i. if i == 64 then some event else none;
  current = 0;
  readied = [];
}

live : Live world 64 event
live = record { found = refl; some_ref = omega arith; refs = omega arith; small = omega arith }

task-Has : Has task blocked 0 (4 * 2 ^ 12)
task-Has = record {
  state_fits = omega arith;
  cause_fits = omega arith;
  count_fits = omega arith;
  token = refl;
}

signal-twice_example :
    let e' = record event { refcnt = 1 } in
    (signal world 64 1 ≡ some (woken world 64 event task 1, 0))
    × (signal (woken world 64 event task 1) 64 2
        ≡ some (drop (woken world 64 event task 1) 64 e', bit_or state_freed state_signaled))
signal-twice_example =
    signal-twice world 64 event task blocked 0 (4 * 2 ^ 12) 1 2 live refl task-Has refl
      (omega arith) (omega arith)
