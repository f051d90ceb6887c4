-- ===== src/Sched/Lifecycle.antt =====
-- The life of a scheduler of prs/sched.c: its object in the directory, its name, and its workers, which
-- its list holds by their addresses. `D` is what the operations of the scheduler and of its workers act on.
use prs.Base.{ℕ, ◌+◌, Bool, true, List, [], ◌∷◌, ◌==◌, if◌then◌else◌, update}
use prs.Base.Result.{Result, ok, unknown, out_of_memory}
use prs.God
use prs.God.{God, Ops}
use prs.God.Header.{id_invalid}
use prs.Name
use prs.Name.{Name}
use prs.Sched.{is_ok}

-- `init` and `uninit` are those of `struct prs_sched_ops`; `start` and `stop` those of a worker.
pub record Env (D : Type 0) : Type 0 where
  pub ops : Ops
  pub init : D → D × Result
  pub uninit : D → D × Result
  pub start : D → (worker : ℕ) → D × Result
  pub stop : D → (worker : ℕ) → D

-- The directory, the names of the schedulers, the strings in memory, the workers of the scheduler at an
-- address, and whether `prs_pal_free` was called on the address by the functions below.
pub record World (D : Type 0) : Type 0 where
  pub god : God
  pub names : Name
  pub memory : ℕ → List ℕ
  pub workers : ℕ → List ℕ
  pub freed : ℕ → Bool
  pub rest : D

module _ {D : Type 0} (env : Env D) where
  -- The name and a reference to the object go.
  abbrev pub give_up : World D → (id : ℕ) → World D
  give_up w id =
      let (names, g, result) = Name.free env.ops w.memory w.names w.god id in
      record w { names = names; god = God.unlock env.ops g id }

  abbrev pub free : World D → (sched : ℕ) → World D
  free w sched = record w { freed = update w.freed sched true }

  abbrev pub cleanup : World D → (sched id : ℕ) → World D
  cleanup w sched id = free (if id == id_invalid then w else give_up w id) sched

  -- `sched` is what `malloc` returns, `list` says whether `prs_dllist_create` succeeds, and `name` is what
  -- `prs_str_copy` leaves of the name. With the result comes the ID.
  unfoldable pub create :
      World D
      → (sched : ℕ) → (list : Bool) → (ops_index : ℕ) → (name : List ℕ) → World D × Result × ℕ
  create w sched list ops_index name =
      let memory = update w.memory (sched + w.names.string_offset) name in
      let (g, id) = God.alloc_and_lock w.god sched ops_index in
      let (names, g', result) = Name.alloc env.ops memory w.names g id in
      let (rest, init_result) = env.init w.rest in
      let copied : World D = record w { memory = memory; workers = update w.workers sched [] } in
      let named : World D = record copied { god = g'; names = names } in
      let ready : World D = record named { rest = rest } in
      if sched == 0
      then (w, out_of_memory, 0)
      else (if list
          then (if id == id_invalid
              then (cleanup (record copied { god = g }) sched id, out_of_memory, 0)
              else (if is_ok result
                  then (if is_ok init_result
                      then (ready, init_result, id)
                      else (cleanup ready sched id, init_result, 0))
                  else (cleanup named sched id, result, 0)))
          else (free w sched, out_of_memory, 0))

  abbrev pub stop_all : D → List ℕ → D
  stop_all d [] = d
  stop_all d (worker ∷ workers) = stop_all (env.stop d worker) workers

  -- The object is locked, and stays so.
  unfoldable pub stop : World D → (id : ℕ) → World D × Result
  stop w id =
      let (g, sched) = God.lock w.god id in
      if sched == 0
      then (record w { god = g }, unknown)
      else (record w { god = g; rest = stop_all w.rest (w.workers sched) }, ok)

  -- `prs_worker_destroy` does nothing.
  unfoldable pub destroy : World D → (id : ℕ) → World D × Result
  destroy w id =
      let (g, sched) = God.lock w.god id in
      let (rest, result) = env.uninit w.rest in
      if sched == 0
      then (record w { god = g }, unknown)
      else (free (give_up (record w { god = g; rest = rest }) id) sched, result)

  -- Up to the first worker that does not start.
  abbrev pub start_all : D → List ℕ → D × Result
  start_all d [] = (d, ok)
  start_all d (worker ∷ workers) =
      let (d', result) = env.start d worker in
      let later = start_all d' workers in if is_ok result then later else (d', result)

  unfoldable pub start : World D → (id : ℕ) → World D × Result
  start w id =
      let (g, sched) = God.lock w.god id in
      let (rest, result) = start_all w.rest (w.workers sched) in
      if sched == 0
      then (record w { god = g }, unknown)
      else (record w { god = God.unlock env.ops g id; rest = rest }, result)

  unfoldable pub find : World D → (name : List ℕ) → World D × ℕ
  find w name =
      let (g, id) = Name.find env.ops w.memory w.names w.god name in (record w { god = g }, id)

  -- With the address of the scheduler.
  unfoldable pub find_and_lock : World D → (name : List ℕ) → World D × ℕ
  find_and_lock w name =
      let (g, id) = Name.find_and_lock env.ops w.memory w.names w.god name in
      (record w { god = g }, God.find g id)
