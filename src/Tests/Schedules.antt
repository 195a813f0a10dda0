-- ===== src/Tests/Schedules.antt =====
-- A scheduler of two workers, in the world with one task.
use fast_queue.Prelude.{ℕ, List, ◌++◌, ◌≡◌, refl, true, false, none, some, [], ◌∷◌, arith}
use fast_queue.Types.{Status, LogLevel}
use fast_queue.Memory.Sample.{Bump, bump_allocators}
use fast_queue.World.Defs.{World, Event}
use fast_queue.Task.Laws.{run_events}
use fast_queue.Scheduler.Defs.{Worker, Scheduler, is_idle}
use fast_queue.Scheduler.Submit.{submit}
use fast_queue.Scheduler.Accounting.{Counted, submit_counts}
use fast_queue.Scheduler.Worker.{Surroundings, run_round}
use fast_queue.Scheduler.Run.{Ran, run_round-Ran}
use fast_queue.Queue.Fifo
use fast_queue.Queue.Ring.{Queue, push_task}
use fast_queue.Queue.Refine.{Holds, push_refines}
use fast_queue.Scheduler.Cancel.{cancel_all}
use fast_queue.Scheduler.Waiting.{Gone}
use fast_queue.Scheduler.Views.{EachHolds}
use fast_queue.Scheduler.CancelAll.{lefts, canceled_scheduler, cancel_all_total}
use fast_queue.Tests.Rings.{ring, ring-Holds}
use fast_queue.Tests.Objects.{sample_task, heard_future, sample_world}

abbrev pub worker : ℕ → Worker
worker id = record { queue = ring; id = id; running = true }

abbrev pub sample_scheduler : Scheduler
sample_scheduler = record {
  workers = worker 0 ∷ worker 1 ∷ [];
  worker_count = 2;
  global_queue = ring;
  shutdown_flag = 0;
  idle_count = 0;
  tasks_submitted = 1;
  tasks_completed = 0;
  tasks_canceled = 0;
  tasks_pending = 1;
  tasks_active = 0;
  enable_work_stealing = true;
  enable_priority = false;
  total_wait_ns = 0;
  total_work_ns = 0;
  allocator = 0;
  log_callback = none;
  log_context = 0;
  log_level = LogLevel.log_info;
}

abbrev pub closed_scheduler : Scheduler
closed_scheduler = record sample_scheduler { shutdown_flag = 1 }

abbrev pub clock : Surroundings
clock = record { global_free = true; worker_free = λ _. true; start_ns = 100; end_ns = 250 }

submit_counts_example :
    (r : Status × Scheduler × ℕ) × (w' : World Bump) × (submit sample_scheduler
        (some 0x10)
        3
        sample_world
      ≡ some (r, w'))
    × Counted sample_scheduler r.0 r.1
submit_counts_example =
    submit_counts sample_scheduler 0x10 3 sample_task (worker 1) sample_world refl (omega arith)
      refl refl

run_round-Ran_example :
    (s' : Scheduler) × (w' : World Bump) × (run_round bump_allocators clock 0x10 sample_scheduler
        sample_world
      ≡ some ((s', 0), w'))
    × Ran sample_scheduler s' 0x10 (run_events sample_task 0x20 heard_future false) sample_world w'
run_round-Ran_example =
    run_round-Ran bump_allocators clock 0x10 sample_scheduler sample_task 0x20 heard_future
      sample_world refl refl refl (omega arith) (omega arith) (omega arith)

-- The task waits in the global queue.
abbrev pub ring_one : Queue ℕ
ring_one = (push_task ring 0x10).1

pub ring_one-Holds : Holds ring_one (0x10 ∷ [])
unfolding Fifo.push push_task
ring_one-Holds = (push_refines [] 0x10 ring-Holds).1

abbrev queued_scheduler : Scheduler
queued_scheduler = record sample_scheduler { global_queue = ring_one }

cancel_all_total_example :
    (q : Queue ℕ) × (ks : List Worker) × (w' : World Bump) × (cancel_all bump_allocators
        queued_scheduler sample_world
      ≡ some (
        canceled_scheduler bump_allocators queued_scheduler q ks 1,
        record w' { events = w'.events ++ Event.woke_workers ∷ [] },
      ))
    × Holds q []
    × EachHolds ks (lefts ([] ∷ [] ∷ []))
    × Gone w' (0x10 ∷ [])
    × (is_idle (some (canceled_scheduler bump_allocators queued_scheduler q ks 0)) ≡ false)
unfolding push_task
cancel_all_total_example =
    cancel_all_total bump_allocators queued_scheduler (0x10 ∷ []) ([] ∷ [] ∷ []) sample_world
      ring_one-Holds (ring-Holds, (ring-Holds, tt)) (omega arith) (omega arith)
      ((sample_task, refl, (heard_future, refl)), tt, tt)
