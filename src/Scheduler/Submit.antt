-- ===== src/Scheduler/Submit.antt =====
-- `fq_scheduler_submit` and its variants.
use fast_queue.Prelude.{
  ℕ, ◌%◌, Bool, true, none, some, ◌==◌, not, leb, if◌then◌else◌, ◌&&◌, add32, sub32,
}
use fast_queue.Types.{Status, status_ok, Priority, priority_level, Ptr}
use fast_queue.Memory.Allocator.{Allocators}
use fast_queue.Queue.Ring.{push_task}
use fast_queue.World.Defs.{Event, M, ◌>>=◌, ◌>>◌, pure, emit}
use fast_queue.Future
use fast_queue.Task
use fast_queue.Scheduler.Defs.{Scheduler, load_worker, store_queue}

-- `scheduler->enable_priority && fq_task_priority(task) >= FQ_PRIORITY_HIGH`
unfoldable pub goes_global : Scheduler → Priority → Bool
goes_global s priority =
    s.enable_priority && leb (priority_level Priority.high) (priority_level priority)

abbrev pub push_global : Scheduler → ℕ → Status × Scheduler
push_global s task =
    let (st, q) = push_task s.global_queue task in (st, record s { global_queue = q })

-- `++tasks_submitted; ++tasks_pending;`
abbrev pub counted : Scheduler → Scheduler
counted s = record s {
  tasks_submitted = add32 s.tasks_submitted 1;
  tasks_pending = add32 s.tasks_pending 1;
}

abbrev pub uncounted : Scheduler → Scheduler
uncounted s = record s { tasks_pending = sub32 s.tasks_pending 1 }

module _ {S : Type 0} where
  -- The branch of the push that goes to the worker `idx`, and to the global queue if that is full.
  unfoldable pub push_worker : Scheduler → ℕ → ℕ → M S (Status × Scheduler)
  push_worker s idx task = do
    k ← load_worker s idx
    let pushed = push_task k.queue task
    let s' = store_queue s idx k pushed.1
    pure (if not (status_ok pushed.0) then push_global s' task else (pushed.0, s'))

  -- Where the task goes; `next_worker` is `tls_next_worker`, before and after.
  unfoldable pub route : Scheduler → ℕ → Priority → ℕ → M S (Status × Scheduler × ℕ)
  route s task priority next_worker =
      if goes_global s priority
      then pure (let r = push_global s task in (r.0, r.1, next_worker))
      else (do
        r ← push_worker s (next_worker % s.worker_count) task
        pure (r.0, r.1, add32 next_worker 1))

  -- What follows the push.
  unfoldable pub settle : Status → Scheduler → ℕ → M S (Status × Scheduler × ℕ)
  settle st s next_worker =
      if status_ok st
      then (do emit Event.woke_one_worker; pure (st, s, next_worker))
      else pure (st, uncounted s, next_worker)

  -- `fq_scheduler_submit` on a scheduler that is not NULL
  unfoldable pub submit : Scheduler → Ptr → ℕ → M S (Status × Scheduler × ℕ)
  submit s none next_worker = pure (Status.err_inval, s, next_worker)
  submit s (some task) next_worker =
      if not (s.shutdown_flag == 0) then pure (Status.err_closed, s, next_worker) else (do
        priority ←
            (if s.enable_priority then Task.task_priority (some task) else pure Priority.normal)
        r ← route (counted s) task priority next_worker
        settle r.0 r.1 r.2)

  module _ (al : Allocators S) where
    -- `fq_scheduler_submit_with_future`, after `fq_future_create` returned `st` and `f`
    unfoldable pub submit_future :
        Scheduler → ℕ → Status → Ptr → ℕ → M S (Status × Ptr × Scheduler × ℕ)
    submit_future s task st f next_worker =
        if not (status_ok st) then pure (st, none, s, next_worker) else (do
          Task.set_future (some task) f
          r ← submit s (some task) next_worker
          if not (status_ok r.0)
              then (do Future.destroy al f; pure (r.0, none, r.1, r.2))
              else pure (Status.ok, f, r.1, r.2))

    -- `fq_scheduler_submit_with_future`; the pointer of the result is what goes through `future`.
    unfoldable pub submit_with_future :
        Scheduler → Ptr → Bool → Bool → ℕ → M S (Status × Ptr × Scheduler × ℕ)
    submit_with_future s none mutex_ok cond_ok next_worker =
        pure (Status.err_inval, none, s, next_worker)
    submit_with_future s (some task) mutex_ok cond_ok next_worker = do
      c ← Future.create al true (some s.allocator) mutex_ok cond_ok
      submit_future s task c.0 c.1 next_worker

    -- `fq_scheduler_submit_fn`
    unfoldable pub submit_fn : Scheduler → Ptr → ℕ → ℕ → M S (Status × Scheduler × ℕ)
    submit_fn s none user_data next_worker = pure (Status.err_inval, s, next_worker)
    submit_fn s (some fn) user_data next_worker = do
      c ← Task.create al true (some fn) user_data (some s.allocator)
      if not (status_ok c.0) then pure (c.0, s, next_worker) else (do
        r ← submit s c.1 next_worker
        (if not (status_ok r.0) then Task.destroy al c.1 else pure tt)
        pure r)
