-- ===== src/Tests/Objects.antt =====
-- A task with a future that has a callback, and what its calls do.
use fast_queue.Prelude.{◌≡◌, refl, false, none, some, [], ◌∷◌, ◌++◌}
use fast_queue.Types.{Status, Priority}
use fast_queue.Memory.Sample.{Bump, bump_allocators, bump_heap}
use fast_queue.World.Defs.{Event, Task, Future, World, ◌>>=◌, ◌>>◌, pure, update}
use fast_queue.Future.{is_ready, future_status, set_result, on_complete}
use fast_queue.Future as F
use fast_queue.Task as T
use fast_queue.Future.Laws.{completion_events, put_future}
use fast_queue.Future.Notify.{on_complete-set_result, set_result-cancel}
use fast_queue.Task.Laws.{after_run, execute_lem}
use fast_queue.Task.Cancel.{
  canceled_future, cancel_events, without_task, cancel-execute, destroy_lem,
}

-- A future that nobody fulfilled, with and without a callback.
abbrev pub fresh_future : Future
fresh_future = record {
  ready = 0;
  canceled = 0;
  status = Status.ok;
  callback = none;
  callback_data = 0;
  allocator = 0;
}

abbrev pub heard_future : Future
heard_future = record fresh_future { callback = some 0x400; callback_data = 5 }

-- A task whose future is at 0x20.
abbrev pub sample_task : Task
sample_task = record {
  callback = 0x300;
  user_data = 3;
  completion = some 0x500;
  completion_data = 4;
  future = some 0x20;
  priority = Priority.high;
  executed = 0;
  canceled = 0;
  allocator = 0;
}

-- The task at 0x10 and the future at 0x20, and nothing else.
abbrev pub world_of : Task → Future → World Bump
world_of t f = record {
  heap = bump_heap 0;
  tasks = update (λ _. none) 0x10 (some t);
  futures = update (λ _. none) 0x20 (some f);
  events = [];
}

abbrev pub sample_world : World Bump
sample_world = world_of sample_task heard_future

-- The same world, with the future fulfilled by this status and its callback called
abbrev notified_world : Status → World Bump
notified_world st = record (world_of sample_task fresh_future) {
  futures =
      update (world_of sample_task fresh_future).futures 0x20
        (some (record heard_future { status = st; ready = 1 }));
  events = Event.woke_waiters 0x20 ∷ Event.completed 0x400 5 st ∷ [];
}

on_complete-set_result_example :
    ((on_complete (some 0x20) (some 0x400) 5 >>= λ r.
    set_result (some 0x20) Status.err_internal >> pure r)
        (world_of sample_task fresh_future)
      ≡ some (Status.ok, notified_world Status.err_internal))
    × ((set_result (some 0x20) Status.err_internal >> on_complete (some 0x20) (some 0x400) 5)
          (world_of sample_task fresh_future)
        ≡ some (Status.ok, notified_world Status.err_internal))
on_complete-set_result_example =
    on_complete-set_result 0x20 0x400 5 fresh_future Status.err_internal
      (world_of sample_task fresh_future) refl refl refl

set_result-cancel_example :
    (w' : World Bump) × ((set_result (some 0x20) Status.ok >> F.cancel (some 0x20)) sample_world
      ≡ some (Status.ok, w'))
    × (w'.events
        ≡ Event.woke_waiters 0x20
          ∷ Event.completed 0x400 5 Status.ok
          ∷ Event.woke_waiters 0x20
          ∷ Event.completed 0x400 5 Status.err_canceled
          ∷ [])
    × (future_status (some 0x20) w' ≡ some (Status.err_canceled, w'))
set_result-cancel_example =
    set_result-cancel 0x20 0x400 heard_future Status.ok sample_world refl refl refl

execute_lem_example :
    T.execute (some 0x10) sample_world
    ≡ some (tt, after_run 0x10 sample_task 0x20 heard_future false sample_world)
execute_lem_example = execute_lem 0x10 sample_task 0x20 heard_future sample_world refl refl refl

cancel-execute_example :
    (w' : World Bump) × ((T.cancel (some 0x10) >>= λ st. T.execute (some 0x10)) sample_world
      ≡ some (tt, w'))
    × (w'.events
        ≡ cancel_events 0x20 heard_future
          ++ (cancel_events 0x20 heard_future
              ++ completion_events (some 0x500) 4 Status.err_canceled))
    × (w'.futures 0x20 ≡ some (canceled_future heard_future))
cancel-execute_example =
    cancel-execute 0x10 sample_task 0x20 heard_future sample_world refl refl refl refl refl refl

destroy_lem_example :
    T.destroy bump_allocators (some 0x10) sample_world
    ≡ some (
      tt,
      without_task bump_allocators 0x10 sample_task (
          put_future 0x20
            (canceled_future heard_future)
            (cancel_events 0x20 heard_future)
            sample_world),
    )
destroy_lem_example =
    destroy_lem bump_allocators 0x10 sample_task 0x20 heard_future sample_world refl refl refl refl
