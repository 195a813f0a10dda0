-- ===== src/Tests/Searches.antt =====
-- A submission to the second of two workers, and the first worker that steals the task and runs it.
use fast_queue.Prelude.{ℕ, ◌≡◌, refl, true, false, some, [], ◌∷◌, arith, ◌↔◌, if◌then◌else◌, none}
use fast_queue.Types.{Status, status_ok}
use fast_queue.Memory.Sample.{Bump, bump_allocators}
use fast_queue.World.Defs.{World}
use fast_queue.Task.Laws.{run_events}
use fast_queue.Scheduler.Defs.{Scheduler}
use fast_queue.Scheduler.Submit.{submit}
use fast_queue.Scheduler.Worker.{Found, find_task, worker_round}
use fast_queue.Scheduler.Run.{Ran}
use fast_queue.Scheduler.Views.{View}
use fast_queue.Scheduler.Places.{place, notified, submit_places}
use fast_queue.Scheduler.Search.{Lists, search_lists, look_order, free_in}
use fast_queue.Scheduler.Steal.{Outcome}
use fast_queue.Scheduler.Find.{find_task_lem}
use fast_queue.Scheduler.Missed.{AllEmpty, find_task-AllEmpty}
use fast_queue.Scheduler.Pool.{pool, add_some, submit-add, find_task-add}
use fast_queue.Scheduler.Round.{worker_round_runs}
use fast_queue.Tests.Rings.{ring-Holds}
use fast_queue.Tests.Objects.{sample_task, heard_future, sample_world}
use fast_queue.Tests.Schedules.{sample_scheduler, worker, clock, ring_one, ring_one-Holds}

sample-View : View sample_scheduler [] ([] ∷ [] ∷ [])
sample-View = record { global = ring-Holds; each = (ring-Holds, (ring-Holds, tt)) }

-- The sample task has a high priority.
abbrev urgent_scheduler : Scheduler
urgent_scheduler = record sample_scheduler { enable_priority = true }

submit_places_example :
    let (st, gs', ls') = place true 63 63 [] ([] ∷ [] ∷ []) 1 0x10 in
    (s' : Scheduler) × (n' : ℕ) × (submit urgent_scheduler (some 0x10) 3 sample_world
      ≡ some ((st, s', n'), notified st sample_world))
    × View s' gs' ls'
submit_places_example =
    submit_places urgent_scheduler [] ([] ∷ [] ∷ []) 0x10 3 sample_task (worker 1) sample_world
      (record { global = ring-Holds; each = (ring-Holds, (ring-Holds, tt)) }) refl refl refl

-- The second worker holds the task.
abbrev waiting_scheduler : Scheduler
waiting_scheduler = record sample_scheduler {
  workers = worker 0 ∷ record (worker 1) { queue = ring_one } ∷ [];
}

abbrev waiting_lists : Lists
waiting_lists = ([], [] ∷ (0x10 ∷ []) ∷ [])

waiting-View : View waiting_scheduler [] ([] ∷ (0x10 ∷ []) ∷ [])
waiting-View = record { global = ring-Holds; each = (ring-Holds, (ring_one-Holds, tt)) }

find_task_lem_example :
    (r : Found) × (find_task clock 0 waiting_scheduler sample_world ≡ some (r, sample_world))
    × Outcome waiting_scheduler r
        (search_lists (free_in clock) (look_order waiting_scheduler 0) waiting_lists)
find_task_lem_example =
    find_task_lem clock 0 waiting_scheduler waiting_lists sample_world waiting-View refl
      (omega arith) (omega arith)

-- The thief finds it, after its own empty queue.
thief_finds :
    search_lists (free_in clock) (look_order waiting_scheduler 0) waiting_lists
    ≡ (some 0x10, ([], [] ∷ [] ∷ []))
thief_finds = refl

worker_round_runs_example :
    (s' : Scheduler) × (w' : World Bump) × (worker_round bump_allocators clock 0 waiting_scheduler 3
        sample_world
      ≡ some ((false, s', 0), w'))
    × Ran waiting_scheduler s' 0x10 (run_events sample_task 0x20 heard_future false) sample_world w'
    × View s' [] ([] ∷ [] ∷ [])
worker_round_runs_example =
    worker_round_runs bump_allocators clock 0 3 waiting_scheduler waiting_lists 0x10 sample_task
      0x20 heard_future sample_world waiting-View refl (omega arith) (omega arith) refl refl refl
      refl refl (omega arith) (omega arith) (omega arith)

submit-add_example :
    (st : Status) × (s' : Scheduler) × (n' : ℕ) × (v' : Lists) × (submit sample_scheduler
        (some 0x10)
        3
        sample_world
      ≡ some ((st, s', n'), notified st sample_world))
    × View s' v'.0 v'.1
    × (pool v' ≡ add_some (if status_ok st then some 0x10 else none) (pool ([], [] ∷ [] ∷ [])))
submit-add_example =
    submit-add sample_scheduler ([], [] ∷ [] ∷ []) 0x10 3 sample_task (worker 1) sample_world
      sample-View refl refl refl

find_task-add_example :
    (r : Found) × (v' : Lists) × (find_task clock 0 waiting_scheduler sample_world
      ≡ some (r, sample_world))
    × View r.2 v'.0 v'.1
    × (pool waiting_lists ≡ add_some r.1 (pool v'))
find_task-add_example =
    find_task-add clock 0 waiting_scheduler waiting_lists sample_world waiting-View refl
      (omega arith) (omega arith)

find_task-AllEmpty_example :
    (r : Found) × (find_task clock 0 waiting_scheduler sample_world ≡ some (r, sample_world))
    × ((r.0 ≡ false) ↔ AllEmpty waiting_lists)
find_task-AllEmpty_example =
    find_task-AllEmpty clock 0 waiting_scheduler waiting_lists sample_world waiting-View refl
      (omega arith) (omega arith) refl refl (λ i. refl)
