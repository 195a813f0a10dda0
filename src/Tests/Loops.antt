-- ===== src/Tests/Loops.antt =====
-- A parallel loop from -3 to 7 on three threads, and the creation of a scheduler with two workers.
use fast_queue.Prelude.{◌+◌, ◌-◌, ◌^◌, ◌≡◌, true, some, List, arith}
use fast_queue.Memory.Sample.{Bump, bump_allocators, bump_heap, bump_laws}
use fast_queue.Parallel.Ranges.{Range, cut, all_calls}
use fast_queue.Parallel.Interval.{interval}
use fast_queue.Parallel.Split.{AllNonempty, ranges_partition}
use fast_queue.World.Defs.{World}
use fast_queue.Tests.Objects.{sample_world}
use fast_queue.Scheduler.Defs.{Stats, config_default}
use fast_queue.Scheduler.Life.{Platform, create_on}
use fast_queue.Scheduler.Blocks.{Balanced, create-Balanced}

-- The loop from -3 to 7
-- The world with that memory
abbrev roomy_world : World Bump
roomy_world = record sample_world { heap = bump_heap 9 }

abbrev garbage : Stats
garbage = record {
  thread_count = 9;
  tasks_submitted = 9;
  tasks_completed = 9;
  tasks_canceled = 9;
  tasks_pending = 9;
  tasks_active = 9;
  total_wait_ns = 9;
  total_work_ns = 9;
}

ranges_partition_example :
    (rs : List Range) × (cut (2 ^ 63 - 3) (2 ^ 63 + 7) 3 ≡ some rs)
    × (all_calls 11 rs ≡ some (interval (2 ^ 63 - 3) 10))
    × AllNonempty rs
ranges_partition_example =
    ranges_partition (2 ^ 63 - 3) (2 ^ 63 + 7) 3 11 (omega arith) (omega arith) (omega arith)
      (omega arith) (omega arith) (omega arith)

-- Two cores
abbrev platform : Platform
platform = record { cores = 2; mutex_ok = true; cond_ok = true; thread_ok = λ i. true }

create-Balanced_example :
    Balanced bump_laws 0 0x1000
      (bump_heap 9)
      (create_on bump_allocators platform config_default (bump_heap 9))
create-Balanced_example = create-Balanced bump_laws 0 0x1000 platform config_default (bump_heap 9)
