-- ===== src/Tests/Counters.antt =====
-- One submission run to its end, and one destroyed by `fq_scheduler_cancel_all`.
use fast_queue.Prelude.{◌≤◌, ◌≡◌, refl, true, some, none, arith, get_elem?}
use fast_queue.Scheduler.Defs.{Scheduler, idle_reads}
use fast_queue.Scheduler.Idle.{wait_idle}
use fast_queue.Scheduler.Counters.Machine.{
  submits, works, cancels, enter, note, await, push, take, start, unpend, execute, complete, finish,
  drain, System, Run, Fresh, start_system, pick, close, here, then_step, queued, finished,
}
use fast_queue.Scheduler.Counters.Exact.{Exact, counters-Exact}
use fast_queue.Scheduler.Counters.Idle.{idle_means_done, wait_idle_hangs}
use fast_queue.Tests.Schedules.{sample_scheduler}

abbrev unused_scheduler : Scheduler
unused_scheduler = record sample_scheduler { tasks_submitted = 0; tasks_pending = 0 }

unused-Fresh : Fresh unused_scheduler
unused-Fresh = record {
  none_submitted = refl;
  none_completed = refl;
  none_canceled = refl;
  none_pending = refl;
  none_active = refl;
}

-- The worker has the task, and does not count it as pending any more.
abbrev under_way : (y : System) × Run (start_system unused_scheduler 1) y
under_way = (
  _,
  then_step
      (then_step
        (then_step
          (then_step
            (then_step
              (then_step (then_step here (pick 0 refl (submits (enter refl))))
                (pick 0 refl (submits note)))
              (pick 0 refl (submits await)))
            (pick 0 refl (submits push)))
          (pick 0 refl (works take)))
        (pick 0 refl (works start)))
      (pick 0 refl (works unpend)),
)

abbrev over : (y : System) × Run under_way.0 y
over = (
  _,
  then_step
      (then_step (then_step here (pick 0 refl (works execute))) (pick 0 refl (works complete)))
      (pick 0 refl (works finish)),
)

counters-Exact_example :
    Exact under_way.0
    × (under_way.0.scheduler.tasks_submitted ≤ 1)
    × (under_way.0.scheduler.tasks_pending ≤ 1)
    × (under_way.0.scheduler.tasks_active ≤ 1)
    × (under_way.0.scheduler.tasks_completed ≤ 1)
    × (under_way.0.scheduler.tasks_canceled ≤ 1)
counters-Exact_example = counters-Exact unused-Fresh (omega arith) under_way.1

idle_means_done_example : get_elem? over.0.submissions 0 ≡ some finished
unfolding idle_reads
idle_means_done_example =
    idle_means_done {n = 1} 0 unused-Fresh (omega arith) under_way.1 over.1 here here refl refl tt

-- The task is drained from a queue after the shutdown.
abbrev destroyed : (y : System) × Run (start_system unused_scheduler 1) y
destroyed = (
  _,
  then_step
      (then_step
        (then_step
          (then_step
            (then_step (then_step here (pick 0 refl (submits (enter refl))))
              (pick 0 refl (submits note)))
            (pick 0 refl (submits await)))
          (pick 0 refl (submits push)))
        close)
      (pick 0 refl (cancels (drain (omega arith)))),
)

wait_idle_hangs_example : wait_idle (λ j. some destroyed.0.scheduler) 100 0 ≡ none
wait_idle_hangs_example =
    wait_idle_hangs {n = 1} 0 (λ j. destroyed.0) 100 0 unused-Fresh (omega arith) destroyed.1 refl
      tt (λ j. here)

-- A chain of three tasks, of which each submits the next before it ends.
abbrev chain_first : (y : System) × Run (start_system unused_scheduler 3) y
chain_first = (
  _,
  then_step
      (then_step
        (then_step
          (then_step
            (then_step
              (then_step (then_step here (pick 0 refl (submits (enter refl))))
                (pick 0 refl (submits note)))
              (pick 0 refl (submits await)))
            (pick 0 refl (submits push)))
          (pick 0 refl (works take)))
        (pick 0 refl (works start)))
      (pick 0 refl (works unpend)),
)

abbrev chain_second : (y : System) × Run chain_first.0 y
chain_second = (
  _,
  then_step
      (then_step
        (then_step
          (then_step
            (then_step
              (then_step (then_step here (pick 1 refl (submits (enter refl))))
                (pick 1 refl (submits note)))
              (pick 1 refl (submits await)))
            (pick 1 refl (submits push)))
          (pick 0 refl (works execute)))
        (pick 0 refl (works complete)))
      (pick 0 refl (works finish)),
)

abbrev chain_third : (y : System) × Run chain_second.0 y
chain_third = (
  _,
  then_step (then_step (then_step here (pick 1 refl (works take))) (pick 1 refl (works start)))
      (pick 1 refl (works unpend)),
)

abbrev chain_fourth : (y : System) × Run chain_third.0 y
chain_fourth = (
  _,
  then_step
      (then_step
        (then_step
          (then_step
            (then_step
              (then_step (then_step here (pick 2 refl (submits (enter refl))))
                (pick 2 refl (submits note)))
              (pick 2 refl (submits await)))
            (pick 2 refl (submits push)))
          (pick 1 refl (works execute)))
        (pick 1 refl (works complete)))
      (pick 1 refl (works finish)),
)

-- The four reads between these states find the scheduler idle, with the third task still in a queue.
chain_looks_idle :
    (idle_reads chain_first.0.scheduler.tasks_pending chain_second.0.scheduler.tasks_active
        chain_third.0.scheduler.tasks_pending chain_fourth.0.scheduler.tasks_active
      ≡ true)
    × (get_elem? chain_fourth.0.submissions 2 ≡ some queued)
    × (chain_fourth.0.scheduler.tasks_pending ≡ 1)
unfolding idle_reads
chain_looks_idle = (refl, refl, refl)
