-- ===== src/Lib.antt =====
-- The Portable Runtime System (PRS) in a shallow embedding: the functions of the C sources as
-- functions on explicit states. Paths are from the repository's root.
--
-- The parts of the program, from the bottom up.
-- - Base: the native numbers, C arrays as lists, 64-bit words (include/prs/pal/types.h on AMD64), `&`
--   and `|` on words, the search loop of the allocators, and include/prs/result.h (Base.Result).
-- - Pool: prs/lib/ds/pool.c, objects that are found by ID and counted by reference. Pool.Header holds
--   the macros and the header words that the compare-and-exchange loops compute; Pool holds
--   `prs_pool_create` to `prs_pool_get_id` as create to get_id_of. Pool.Fields, Alloc, Refs, Reuse
--   and Lifecycle hold the proofs.
-- - Pd: prs/lib/ds/pd.c, the pointer directory, in the same way.
-- - Chain: the assignments that prs/lib/ds/idllist.c and prs/lib/ds/dllist.c have in common, on a
--   memory of links, and the predicates on runs of linked nodes (Chain.Seg, Chain.Link, Chain.Walk).
-- - Idllist and Dllist: these two lists, operation by operation.
-- - Mpsciq: prs/lib/ds/mpsciq.c, the queue of the schedulers: a stack of nodes whose reverse links are
--   built when the consumer needs them.
-- - Mpscq: prs/lib/ds/mpscq.c, the queue of values, on the links of Mpsciq.
-- - Mpmcq: prs/lib/ds/mpmcq.c, the queue on which semaphores keep the tasks that wait, over Pd. Mpmcq.Count
--   and Cells say what a queue is, Pop, Extend and Push follow its rounds, Values is its list of values.
-- - Task: the token of prs/task.c and prs/task.h, with `prs_task_block` and `prs_task_unblock`.
--   Task.Lifecycle creates, finds and destroys tasks, and moves them between processes, over God, Name,
--   Proc and Sched.Tasks.
-- - Event: prs/event.c, which blocks a task and lets many sources unblock it once.
-- - Sem: prs/sem.c, the semaphore over events.
-- - Swprio and Swcoop: prs/sched/swprio.c and prs/sched/swcoop.c, the two schedulers, over the tasks'
--   tokens and the content of their queues.
-- - Sched: prs/sched.c, the list of workers that `prs_sched_add_thread` extends, and in Sched.Tasks the
--   tasks that it adds to a scheduler, removes and readies, over God; the scheduler itself is a record
--   of operations that the definitions take. Sched.Lifecycle creates, starts, stops and destroys it.
-- - Thread: prs/pal/posix/thread.c, the thread that a worker runs on.
-- - Worker: prs/worker.c. Worker holds the flags, `prs_worker_schedule_internal` and the posts,
--   Worker.Entry the life of a worker, and Worker.Wakeup interleaves a worker that falls asleep with the
--   posts of other workers, interrupts that are lost included.
-- - Str: prs/lib/str.c, copying strings.
-- - Bitops: include/prs/pal/bitops.h; Stack: prs/alloc/stack.c, whose sizes are rounded to pages.
-- - God: prs/god.c, the directory in which every object is found by its ID and counted by reference.
--   God.Header holds the macros and the header words, God.Fields reads them as fields, God.Count counts
--   the references to two objects side by side, God.Steps interleaves the accesses of several workers to
--   one entry, God.Protocol says what these keep, and God.Drain follows the entry until it is free.
-- - Name: prs/name.c, the hash table that finds the ID of an object by its name, over God. Name.Destroy
--   walks the nodes of the table in memory, with what is freed there.
-- - Msgq: prs/msgq.c, the message queue of a task, over Pd and Event, and in Msgq.Receive the receives,
--   over Timer and Task; what other workers do while a receive waits is an argument.
-- - Timer: prs/timer.c, the wheels of timers, over Pool and the events, which are a record of
--   operations that the definitions take.
-- - Proc: prs/proc.c, the command line of a process (Proc.Cmdline, Proc.Words), the table of address
--   ranges (Proc.Ranges), and the objects of a process, over God.
-- Modules named Tests hold runs of the definitions and each theorem of the list below at an input.
--
-- How the code is carried over. Structures are records. Pointers are addresses, 0 is null; memories
-- are functions. A function that changes state takes the state and returns it. An allocation that
-- can fail is an argument that says whether it does. `none` stands for an assertion that fails or
-- for a loop whose fuel runs out, as the head of each file says. Words are 64 bits wide, and their
-- arithmetic wraps. Operations run one at a time: a compare-and-exchange compares with the value
-- just loaded, so its loop ends after one round.
--
-- Bounds. The loops over the nodes of a list take fuel: Idllist and Dllist give a round more than the
-- list's size, which the theorems on destroy show to be enough; the theorems on Mpsciq hold for all
-- fuel above the number of nodes, and show that there is a result. The search loop of the
-- allocators has a round for each entry; God.Alloc shows where its end wraps. Lists hold fewer than
-- 2 ^ 64 - 1 nodes. A receive (Msgq.Receive) waits as often as its fuel allows: the loop of the source
-- has no bound of its own. Nor have the rounds of a worker (Worker, Worker.Entry), which takes tasks as
-- long as there are any. A push or a pop of Mpmcq ends within two rounds. All other loops are
-- recursions on lists.
--
-- Not modelled: interleavings of operations of several workers, but for the references to one entry of
-- the directory (God.Steps) and for the flags of a worker (Worker.Wakeup); the debug fields and
-- integrity checks under build options; the platform layer in prs/pal but for the threads, the start-up,
-- the loader and the log, which are calls of the operating system; creations and destructions that only
-- allocate and free; the calls of a scheduler by its tasks that only call the worker; and the parts that
-- follow: prs/lib/ds/mpmcring.c, and the execution and the end of a process in prs/proc.c. The schedulers
-- and the timer hold their queues and lists by content, as Mpsciq.Content and Idllist.Laws show for the
-- code of these; the semaphore holds its queue by content, as Mpmcq.Values and Mpmcq.Push show for
-- prs/lib/ds/mpmcq.c. What a shift by more than the width of a type yields is an argument of the timer's
-- tick.
pub mod Base
pub mod Bitops
pub mod Chain
pub mod Dllist
pub mod Event
pub mod God
pub mod Idllist
pub mod Mpmcq
pub mod Mpsciq
pub mod Mpscq
pub mod Msgq
pub mod Name
pub mod Pd
pub mod Pool
pub mod Proc
pub mod Sched
pub mod Sem
pub mod Stack
pub mod Str
pub mod Swcoop
pub mod Swprio
pub mod Task
pub mod Thread
pub mod Timer
pub mod Worker
