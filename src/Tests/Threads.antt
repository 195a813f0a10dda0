-- ===== src/Tests/Threads.antt =====
-- Workers of a scheduler that is open and of one that is shut down, and a refused submission.
use fast_queue.Prelude.{◌≡◌, refl, true, none, some, [], ◌∷◌, arith}
use fast_queue.Types.{Status}
use fast_queue.Memory.Allocator.{fq_calloc}
use fast_queue.Memory.Sample.{Bump, bump_allocators, bump_heap}
use fast_queue.World.Defs.{World}
use fast_queue.Task
use fast_queue.Queue.Ring.{size, empty}
use fast_queue.Scheduler.Defs.{Scheduler, log_msg}
use fast_queue.Scheduler.Worker.{may_exit, worker_round}
use fast_queue.Scheduler.Submit.{submit_with_future}
use fast_queue.Scheduler.Dangling.{submit_with_future_dangles}
use fast_queue.Scheduler.Main.{Thread, worker_loop, worker_main, MayLeave, Read, worker_main_leaves}
use fast_queue.Tests.Objects.{sample_task, sample_world}
use fast_queue.Tests.Schedules.{closed_scheduler, clock}

-- A thread that finds this scheduler at every round
abbrev thread_at : Scheduler → Thread Bump
thread_at s = record {
  env = λ n. clock;
  others = λ n x w. (s, w);
  started = λ i. "worker 0 started";
  stopping = λ i. "worker 0 stopping";
}

worker_main_leaves_example :
    MayLeave 0 closed_scheduler
    × Read bump_allocators (thread_at closed_scheduler) 0 closed_scheduler
unfolding worker_main worker_loop worker_round may_exit empty size log_msg
worker_main_leaves_example =
    worker_main_leaves bump_allocators (thread_at closed_scheduler) 0 2 closed_scheduler
      closed_scheduler sample_world sample_world refl

-- The sample world, with memory for one future
abbrev roomy_world : World Bump
roomy_world = record sample_world { heap = bump_heap 1 }

submit_with_future_dangles_example :
    (w' : World Bump) × (submit_with_future bump_allocators closed_scheduler
        (some 0x10)
        true
        true
        3
        roomy_world
      ≡ some ((Status.err_closed, none, closed_scheduler, 3), w'))
    × (w'.futures 0x1000 ≡ none)
    × (w'.tasks 0x10 ≡ some (record sample_task { future = some 0x1000 }))
    × (Task.destroy bump_allocators (some 0x10) w' ≡ none)
unfolding fq_calloc bump_allocators
submit_with_future_dangles_example =
    submit_with_future_dangles bump_allocators closed_scheduler 0x10 0x1000 3 sample_task
      (record { next = 0x1001; budget = 0; blocks = (closed_scheduler.allocator, 0x1000) ∷ [] })
      roomy_world (omega arith) refl refl
