-- ===== src/Scheduler/Cancel.antt =====
-- `fq_scheduler_cancel_all`.
use fast_queue.Prelude.{
  ℕ, zero, suc, Option, none, List, [], ◌∷◌, ◌==◌, if◌then◌else◌, add32, length,
}
use fast_queue.Memory.Allocator.{Allocators}
use fast_queue.Queue.Ring.{Queue, drain_loop}
use fast_queue.World.Defs.{Event, M, ◌>>=◌, ◌>>◌, pure, emit}
use fast_queue.Task
use fast_queue.Scheduler.Defs.{Worker, Scheduler}

-- BATCH
abbrev pub batch : ℕ
batch = 256

module _ {S : Type 0} (al : Allocators S) where
  -- `for (i = 0; i < n; ++i) { fq_task_destroy(tasks[i]); ++tasks_canceled; }`
  unfoldable pub destroy_tasks : List (Option ℕ) → ℕ → M S ℕ
  destroy_tasks [] canceled = pure canceled
  destroy_tasks (t ∷ ts) canceled = do Task.destroy al t; destroy_tasks ts (add32 canceled 1)

  -- `while ((n = fq_queue_drain(global_queue, tasks, BATCH)) > 0)` on fuel; `none` also means that
  -- the fuel ran out.
  unfoldable pub drain_global : ℕ → Queue ℕ → ℕ → M S (Queue ℕ × ℕ)
  drain_global zero q canceled = λ w. none
  drain_global (suc fuel) q canceled =
      let (tasks, q') = drain_loop batch q in
      let rest = λ (c : ℕ). drain_global fuel q' c in
      if length tasks == 0 then pure (q', canceled) else (destroy_tasks tasks canceled >>= rest)

  -- The loop over the workers: one batch of each.
  unfoldable pub drain_workers : List Worker → ℕ → M S (List Worker × ℕ)
  drain_workers [] canceled = pure ([], canceled)
  drain_workers (k ∷ ks) canceled = do
    let d = drain_loop batch k.queue
    c ← destroy_tasks d.0 canceled
    r ← drain_workers ks c
    pure (record k { queue = d.1 } ∷ r.0, r.1)

  -- `fq_scheduler_cancel_all` on a scheduler that is not NULL. Each round of the loop over the global
  -- queue takes a task, so its capacity is fuel enough.
  unfoldable pub cancel_all : Scheduler → M S Scheduler
  cancel_all s = do
    g ← drain_global s.global_queue.capacity s.global_queue s.tasks_canceled
    r ← drain_workers s.workers g.1
    emit Event.woke_workers
    pure (record s { shutdown_flag = 1; global_queue = g.0; workers = r.0; tasks_canceled = r.1 })
