-- ===== src/Task.antt =====
-- src/task/task.c and include/fastqueue/task.h: each call run to its end.
pub mod Laws
pub mod Cancel
pub mod Destroy
use fast_queue.Prelude.{
  ℕ, zero, suc, ◌≡◌, Bool, true, false, Option, none, some, ◌==◌, not, if◌then◌else◌,
}
use fast_queue.Types.{Status, Priority, Ptr}
use fast_queue.Memory.Allocator.{Allocators, resolve, fq_free}
use fast_queue.World.Defs.{
  Task, Event, World, M, ◌>>=◌, ◌>>◌, pure, update, load_task, store_task, emit,
}
use fast_queue.Future
use fast_queue.Future.{set_result, complete, alloc_block}

-- `sizeof(fq_task_t)` on x86-64 Linux
abbrev pub sizeof_task : ℕ
sizeof_task = 64

abbrev pub new_task : ℕ → ℕ → Ptr → ℕ → ℕ → Task
new_task callback user_data completion completion_data allocator = record {
  callback = callback;
  user_data = user_data;
  completion = completion;
  completion_data = completion_data;
  future = none;
  priority = Priority.normal;
  executed = 0;
  canceled = 0;
  allocator = allocator;
}

-- `was_canceled ? FQ_ERR_CANCELED : FQ_OK`
abbrev pub outcome : Bool → Status
outcome was_canceled = if was_canceled then Status.err_canceled else Status.ok

module _ {S : Type 0} where
  -- `fq_task_user_data`; `none` is its NULL
  unfoldable pub task_user_data : Ptr → M S Ptr
  task_user_data none = pure none
  task_user_data (some p) = do t ← load_task p; pure (some t.user_data)

  -- `fq_task_priority`
  unfoldable pub task_priority : Ptr → M S Priority
  task_priority none = pure Priority.normal
  task_priority (some p) = do t ← load_task p; pure t.priority

  -- `fq_task_set_priority`
  unfoldable pub set_priority : Ptr → Priority → M S (Unit {0})
  set_priority none priority = pure tt
  set_priority (some p) priority = do
    t ← load_task p
    store_task p (record t { priority = priority })

  -- `fq_task_set_future`
  unfoldable pub set_future : Ptr → Ptr → M S (Unit {0})
  set_future none future = pure tt
  set_future (some p) future = do t ← load_task p; store_task p (record t { future = future })

  -- `fq_task_future`
  unfoldable pub task_future : Ptr → M S Ptr
  task_future none = pure none
  task_future (some p) = do t ← load_task p; pure t.future

  -- `fq_task_is_executed`
  unfoldable pub is_executed : Ptr → M S Bool
  is_executed none = pure false
  is_executed (some p) = do t ← load_task p; pure (not (t.executed == 0))

  -- `fq_task_is_canceled`
  unfoldable pub is_canceled : Ptr → M S Bool
  is_canceled none = pure false
  is_canceled (some p) = do t ← load_task p; pure (not (t.canceled == 0))

  -- `if (task->future) fq_future_cancel(task->future);`
  unfoldable pub cancel_future : Ptr → M S (Unit {0})
  cancel_future none = pure tt
  cancel_future (some f) = do st ← Future.cancel (some f); pure tt

  -- `fq_task_cancel`
  unfoldable pub cancel : Ptr → M S Status
  cancel none = pure Status.err_inval
  cancel (some p) = do
    executed ← is_executed (some p)
    if executed then pure Status.err_busy else (do
      t ← load_task p
      if not (t.canceled == 0) then pure Status.ok else (do
        store_task p (record t { canceled = 1 })
        cancel_future t.future
        pure Status.ok))

  -- `fq_task_execute`. The callback is an event: it leaves the task's fields alone.
  unfoldable pub execute : Ptr → M S (Unit {0})
  execute none = pure tt
  execute (some p) = do
    was_canceled ← is_canceled (some p)
    t ← load_task p
    (if not was_canceled then emit (Event.called t.callback t.user_data) else pure tt)
    store_task p (record t { executed = 1 })
    set_result t.future (outcome was_canceled)
    complete t.completion t.completion_data (outcome was_canceled)

  module _ (al : Allocators S) where
    -- `fq_task_create_with_completion`, after `fq_calloc` gave `p`
    unfoldable pub create_at : Ptr → Task → M S (Status × Ptr)
    create_at none t = pure (Status.err_nomem, none)
    create_at (some p) t = do store_task p t; pure (Status.ok, some p)

    -- `fq_task_create_with_completion`; `given` is whether the out pointer is not NULL, and the
    -- pointer of the result is what goes through it.
    unfoldable pub create_with_completion : Bool → Ptr → ℕ → Ptr → ℕ → Ptr → M S (Status × Ptr)
    create_with_completion given none user_data completion completion_data allocator =
        pure (Status.err_inval, none)
    create_with_completion given (some fn) user_data completion completion_data allocator =
        if not given then pure (Status.err_inval, none) else (do
          p ← alloc_block al (resolve allocator) 1 sizeof_task
          create_at p (new_task fn user_data completion completion_data (resolve allocator)))

    -- `fq_task_create`
    unfoldable pub create : Bool → Ptr → ℕ → Ptr → M S (Status × Ptr)
    create given callback user_data allocator =
        create_with_completion given callback user_data none 0 allocator

    -- `fq_free` of a task: no access to it is defined from then on.
    abbrev pub free_task : ℕ → ℕ → M S (Unit {0})
    free_task allocator p w = some (
      tt,
      record w {
        heap = fq_free al (some allocator) (some p) w.heap;
        tasks = update w.tasks p none;
      },
    )

    -- `if (task->future && !fq_future_is_ready(task->future)) fq_future_cancel(task->future);`
    unfoldable pub cancel_unfulfilled : Ptr → M S (Unit {0})
    cancel_unfulfilled none = pure tt
    cancel_unfulfilled (some f) = do
      ready ← Future.is_ready (some f)
      if not ready then (do st ← Future.cancel (some f); pure tt) else pure tt

    -- `fq_task_destroy`
    unfoldable pub destroy : Ptr → M S (Unit {0})
    destroy none = pure tt
    destroy (some p) = do t ← load_task p; cancel_unfulfilled t.future; free_task t.allocator p
