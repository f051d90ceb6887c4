-- ===== src/Thread/Laws.antt =====
-- The life of the threads of prs/pal/posix/thread.c.
use prs.Base.{◌≡◌, refl, Bool, true, false, none, some, if◌then◌else◌}
use prs.Base.Result.{ok, invalid_state}
use prs.Thread.{Thread, create, suspend, start, entry, join, destroy, resume}

abbrev pub sleeping : (from_current : Bool) → Thread
sleeping from_current = record {
  from_current = from_current;
  started = false;
  exited = false;
  idle_sem = 0;
}

-- A thread that is created and started runs its entry function to the end, also where it sleeps only
-- after it was started, and can be joined. A thread of its own can then be destroyed. For the thread that
-- the process began with, `started` is reset at the end, so that `prs_pal_thread_destroy` refuses it for
-- good. Before the start, a thread of its own sleeps.
pub start-ends :
    (run waited : Thread → Thread)
    → ((s : Thread) → ((run s).started ≡ s.started) × ((run s).from_current ≡ s.from_current))
    → (from_current : Bool)
    → let t = sleeping from_current in
      let (started, result) = start run true t in
      let ended = if from_current then some started else entry run started in
      (create true true true true from_current ≡ some t)
      × (entry run (sleeping false) ≡ none)
      × (result ≡ ok)
      × ((e : Thread) × (ended ≡ some e)
          × (join waited e ≡ (e, ok))
          × (destroy e ≡ (if from_current then (false, invalid_state) else (true, ok))))
unfolding create start entry suspend join destroy resume
start-ends run waited keeps true =
    let t : Thread = record (sleeping true) { started = true } in
    (refl, refl, refl, (_, refl, rw ((keeps t).1) refl, refl))
start-ends run waited keeps false =
    let t : Thread = record (sleeping false) { started = true } in
    (refl, refl, refl, (_, refl, rw ((keeps t).1) refl, rw ((keeps t).0) refl))
