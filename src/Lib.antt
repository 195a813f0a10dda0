-- ===== src/Lib.antt =====
-- FastQueue, a task library in C: tasks with futures, and a scheduler of worker threads with
-- work-stealing queues.
--
-- How the program hangs together. A task (src/task/task.c) has a callback, an optional completion
-- callback, and an optional future (src/future/future.c) that its run fulfils. A scheduler
-- (src/scheduler/scheduler.c) pushes the addresses of tasks to one global queue and one queue for each
-- worker (src/queue/queue.c); a worker takes a task from them, runs it and destroys it. Every object is
-- allocated through an `fq_allocator_t` (src/memory/memory.c).
--
-- Which file models what:
--   Types              include/fastqueue/types.h and src/utils/errors.c: `fq_status_t`,
--                      `fq_priority_t`, `fq_log_level_t`, `fq_status_string`, `fq_status_ok`
--   Memory             `fq_alloc`, `fq_calloc`, `fq_realloc`, `fq_free`, `fq_align_up` and
--                      `fq_is_aligned`; Memory.Blocks has the laws that are asked of an allocator,
--                      Memory.Sample one that obeys them, and Memory.Default the default allocator
--                      over the C library's, with its counters
--   Queue.Pow2         `next_pow2`, with its shifts and the wrap of its last sum
--   Queue.Ring         the queue as a record, and every `fq_queue_*` function run to its end
--   Queue.Fifo         the abstract queue: a list of at most so many tasks
--   Queue.Valid        the invariant of the ring, and what it holds; Queue.Refine relates it to a list
--   Queue.Calls        runs of calls on one queue, and what the abstract queue answers
--   Queue.Concurrent   push, pop and try_pop as the steps of interleaving threads, with both mutexes
--   World              tasks, futures, heap and events as one state, with its monad
--   Future, Task       the calls of future.c and task.c on that state; Future.Wait has the two waits,
--                      over what the waiting thread sees of the future at each look
--   Scheduler.Defs     the scheduler's state, `fq_scheduler_config_default`, `fq_scheduler_stats`,
--                      `fq_scheduler_is_idle`, `fq_scheduler_is_shutdown`
--   Scheduler.Submit   `fq_scheduler_submit`, `fq_scheduler_submit_with_future`,
--                      `fq_scheduler_submit_fn`
--   Scheduler.Cancel   `fq_scheduler_cancel_all`
--   Scheduler.Life     `fq_scheduler_create` and `fq_scheduler_shutdown`
--   Scheduler.Idle     `fq_scheduler_wait_idle`
--   Scheduler.Worker   one round of the loop of `worker_main`, and `try_steal`
--   Scheduler.Main     `worker_main` as a whole: its loop, over what the other threads make of the
--                      scheduler, the tasks and the futures between two of its rounds
--   Scheduler.Views    the queues of a scheduler as lists; Scheduler.Places, Search and Steal have
--                      the submission and the search for a task on those lists
--   Scheduler.Pool     the tasks of all queues without their order, a quotient of those lists
--   Scheduler.Counters the accesses of submissions, workers and `fq_scheduler_cancel_all` to the
--                      counters, as the steps of interleaving threads
--   ThreadPool         src/thread/thread_pool.c, the same calls under other names
--   Parallel           src/utils/parallel.c: the ranges of a parallel loop and their submission, where a
--                      `long` x is given by x + 2^63; Parallel.Split cuts the loop, Parallel.Returns has
--                      one round, Parallel.Started the loop over the rounds and Parallel.Whole the call
--   Atomic             include/fastqueue/atomic.h over <stdatomic.h>, MSVC, and GCC and Clang; Atomic.Runs
--                      has runs of operations on one cell
--   Platform           src/platform/platform.c over POSIX and Win32; the system's answers are arguments.
--                      Platform.Macros has the macros of include/fastqueue/platform.h as functions of
--                      those that a compiler predefines, and Platform.Versions which versions of
--                      platform.c, time.c and atomic.h are compiled
--   Time, Errors, Version   src/utils/time.c over every system's clock, the message buffer of
--                      src/utils/errors.c, version.h
--   Tests              the theorems at concrete states
--
-- Conventions. `size_t` is of 64 bits and `int` and `unsigned` of 32; sums and differences wrap where
-- the source's may, and an `int` is its pattern of bits. A pointer is an optional address. An access
-- to an object that is not there has no result (`none`): it is undefined behaviour. The slots of a
-- queue are the exception: that each access lies in the buffer is a consequence of the queue's
-- invariant, and a write beside a buffer leaves it as it is. An out parameter is part of the result.
-- A trylock's outcome, a clock's reading and the success of an initialisation are arguments.
-- Callbacks are events in the order of their calls, and do not call back into the library. The sizes
-- of the structs are those of x86-64 Linux.
--
-- Threads. Each access to an atomic is one step of a sequentially consistent memory. The queue's
-- functions are also modelled step by step, for any number of threads, and so are the accesses to the
-- scheduler's counters, for any number of submissions, where a push or a pop is one step and which
-- queued task is taken is left open. The other calls are each run to their end.
--
-- Loops. The loop of `fq_queue_drain` recurs on the rounds left, that of `try_steal` on the number of
-- workers, and the loop of `fq_scheduler_cancel_all` over the global queue on fuel, for which the
-- queue's capacity is given: each of its rounds takes a task. The waits for a future and for an idle
-- scheduler take fuel, one unit for each look, and `worker_main` one for each round; the loop that
-- raises the allocator's peak recurs on the exchanges that fail; a parallel loop recurs on its
-- rounds, and the loop of one of its tasks on fuel, for which the length of the whole loop and one
-- more is given: each of its rounds makes a call. A call that joins a worker which cannot end is a
-- result of its own (`hung`).
--
-- Not modelled: what the other threads do inside a round of a worker's loop (its accesses to the
-- counters excepted), weak memory, `fq_thread_yield`, and of the macros of include/fastqueue/platform.h
-- those that hint at branches and give the size of a cache line.
pub mod Prelude
pub mod Types
pub mod Atomic
pub mod Memory
pub mod Queue
pub mod World
pub mod Future
pub mod Task
pub mod Scheduler
pub mod ThreadPool
pub mod Parallel
pub mod Platform
pub mod Time
pub mod Errors
pub mod Version
pub mod Tests
