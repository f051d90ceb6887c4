-- ===== src/Sched/Tests.antt =====
-- Each theorem on prs/sched.c at an input.
use prs.Base.{ℕ, ◌≡◌, ◌<◌, refl, true, false, none, [], ◌∷◌, arith, ◌==◌, if◌then◌else◌}
use prs.Base.Result.{out_of_memory, ok}
use prs.Dllist.{Dllist, get_data}
use prs.Dllist.Laws.{Holds}
use prs.Sched.{add_thread}
use prs.Sched.Laws.{add_thread-loses_first}
use prs.God
use prs.God.{God}
use prs.God.Fields.{encode, live}
use prs.God.Count.{Both}
use prs.Sched.Lifecycle.{Env, World, destroy, stop}
use prs.Sched.Destroyed.{Held, destroy-stays}

-- The node 16, with the worker 100.
abbrev one : Dllist
one = record {
  chain = record { next = λ j. 0; prev = λ j. 0; head = 16; tail = 16; size = 1 };
  content = λ j. 100;
  live = λ j. j == 16;
}

one-Holds : Holds one (16 ∷ [])
one-Holds = record {
  chain = record {
    seg = (refl, refl, omega arith, refl, tt);
    head = refl;
    tail = refl;
    size = refl;
    small = omega arith;
  };
  live = λ x h. ground arith;
}

add_thread-loses_first_example :
    (r : Dllist) × (add_thread true 200 48 out_of_memory one ≡ (r, out_of_memory, true))
    × Holds r (48 ∷ [])
    × (get_data r 48 ≡ 200)
add_thread-loses_first_example =
    add_thread-loses_first one 200 48 (omega arith) (omega arith) refl 16 [] out_of_memory refl
      one-Holds (omega arith)

-- The scheduler is object 1 and its task object 2, with `c` and `d` references.
abbrev directory : (c d : ℕ) → God
directory c d = record {
  header = λ j. encode (if j == 1 then live 1 c else (if j == 2 then live 2 d else live 0 1));
  object = λ _. 8;
  ops = λ _. 0;
  max_entries = 4;
  max_entries_mask = 3;
  write_index = 3;
}

abbrev quiet : God.Ops
quiet = record { destroy_of = λ _. none; free_of = λ _. none }

directory-Both : (c d : ℕ) → c < 100 → d < 100 → Both (directory c d) 1 2 c d
unfolding God.get_entry
directory-Both c d small small' = record {
  first = record {
    valid = omega arith;
    fits = record { id_fits = omega arith; refcnt_fits = omega arith };
    header = refl;
  };
  second = record {
    valid = omega arith;
    fits = record { id_fits = omega arith; refcnt_fits = omega arith };
    header = refl;
  };
  apart = omega arith;
  object = omega arith;
  object' = omega arith;
}

abbrev env : Env Unit
env = record {
  ops = quiet;
  init = λ d. (d, ok);
  uninit = λ d. (d, ok);
  start = λ d worker. (d, ok);
  stop = λ d worker. d;
}

abbrev world : World Unit
world = record {
  god = directory 1 1;
  names = record { max_entries = 64; string_offset = 4; entries = λ _. 1 ∷ [] };
  memory = λ _. 97 ∷ [];
  workers = λ _. 100 ∷ [];
  freed = λ _. false;
  rest = tt;
}

destroy-stays_example :
    ((destroy env world 1).0.freed 8 ≡ true)
    × Held (destroy env world 1).0.god 1 1 8
    × ((God.lock (destroy env world 1).0.god 1).1 ≡ 8)
    × Held (stop env world 1).0.god 1 2 8
destroy-stays_example =
    destroy-stays env world 1 1 8
      (record { live = (directory-Both 1 1 (omega arith) (omega arith)).first; same = refl })
      (omega arith) (omega arith) (omega arith)
