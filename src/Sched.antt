-- ===== src/Sched.antt =====
-- prs/sched.c: the list of a scheduler's workers, which `prs_sched_add_thread` extends. The element of
-- a node is the address of a `struct prs_sched_worker`.
pub mod Laws
pub mod Tasks
pub mod References
pub mod Lifecycle
pub mod Destroyed
mod Tests
use prs.Base.{ℕ, Bool, true, false, ◌==◌, if◌then◌else◌}
use prs.Base.Result.{Result, ok, unknown, out_of_memory}
use prs.Dllist.{Dllist, insert_before, remove, begin}

abbrev pub is_ok : Result → Bool
is_ok ok = true
is_ok _ = false

-- `prs_worker_create` and what follows it: with the list, the result, and whether the worker's
-- structure is freed.
unfoldable pub start_worker : (created : Result) → Dllist → Dllist × Result × Bool
start_worker created l =
    if is_ok created then (l, ok, false) else (remove l (begin l), created, true)

-- What follows `prs_dllist_insert_before`.
unfoldable pub inserted : (created : Result) → Dllist × Result → Dllist × Result × Bool
inserted created (l, result) = if is_ok result then start_worker created l else (l, result, false)

-- `found` says whether `prs_god_lock` finds the scheduler, `sched_worker` and `node` are what
-- `malloc` returns for the structure and for the node of the list, and `created` is the result of
-- `prs_worker_create`.
unfoldable pub add_thread :
    (found : Bool) → (sched_worker node : ℕ) → (created : Result) → Dllist → Dllist × Result × Bool
add_thread found sched_worker node created l =
    if found
    then (if sched_worker == 0
        then (l, out_of_memory, false)
        else inserted created (insert_before node l 0 sched_worker))
    else (l, unknown, false)
