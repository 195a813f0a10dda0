-- ===== src/Scheduler/Run.antt =====
-- The round in which a worker runs a task.
use fast_queue.Prelude.{
  ℕ, zero, suc, ◌+◌, ◌^◌, ◌≤◌, ◌<◌, ◌≡◌, refl, sym, ap, ◌∙◌, none, some, List, ◌++◌, ◌==◌, not,
  add32, sub32, add64, sub64, arith, u32,
}
use fast_queue.Memory.Allocator.{Allocators}
use fast_queue.World.Defs.{Event, Task, Future, World, update}
use fast_queue.Task
use fast_queue.Future.Laws.{bind-some, update_self}
use fast_queue.Task.Laws.{after_run, run_events, marked_executed, execute_lem}
use fast_queue.Task.Cancel.{without_task, destroy_done}
use fast_queue.Scheduler.Defs.{Scheduler}
use fast_queue.Scheduler.Worker.{Surroundings, run_round, idle_timeout}

-- What a worker's run of task `p` did: a task moved from pending to completed and none is active
-- that was not; the client saw the events of one run; the task is gone.
pub record Ran {S : Type 0} (s s' : Scheduler) (p : ℕ) (es : List Event) (w w' : World S)
    : Type 0 where
  pub pending_less : s'.tasks_pending + 1 ≡ s.tasks_pending
  pub completed_more : s'.tasks_completed ≡ u32 (s.tasks_completed + 1)
  pub active_kept : s'.tasks_active ≡ s.tasks_active
  pub submitted_kept : s'.tasks_submitted ≡ s.tasks_submitted
  pub canceled_kept : s'.tasks_canceled ≡ s.tasks_canceled
  pub seen : w'.events ≡ w.events ++ es
  pub gone : w'.tasks p ≡ none

some-same : {A : Type 0} {a b : A} → some a ≡ some b → a ≡ b
some-same e = cc

module _ {S : Type 0} (al : Allocators S) where
  -- The scheduler after the run.
  abbrev finished : Surroundings → Scheduler → Scheduler
  finished e s = record s {
    tasks_active = sub32 (add32 s.tasks_active 1) 1;
    tasks_pending = sub32 s.tasks_pending 1;
    tasks_completed = add32 s.tasks_completed 1;
    total_work_ns = add64 s.total_work_ns (sub64 e.end_ns e.start_ns);
  }

  run_round_lem :
      (e : Surroundings) (p : ℕ) (s : Scheduler) (t : Task) (fp : ℕ) (f : Future) (w : World S)
      → w.tasks p ≡ some t
      → t.future ≡ some fp
      → w.futures fp ≡ some f
      → run_round al e p s w
        ≡ some (
          (finished e s, 0),
          without_task al p (marked_executed t) (after_run p t fp f (not (t.canceled == 0)) w),
        )
  unfolding run_round
  run_round_lem e p s t fp f w et a ef =
      let w1 = after_run p t fp f (not (t.canceled == 0)) w in
      bind-some (Task.execute (some p)) _ w (execute_lem p t fp f w et a ef)
      ∙ bind-some (Task.destroy al (some p)) _ w1 (
          destroy_done al p (marked_executed t) fp _ w1 (update_self w.tasks p _) a
            (update_self w.futures fp _) (λ h. omega arith))

  pub run_round-queues :
      (e : Surroundings) (p : ℕ) (s : Scheduler) (t : Task) (fp : ℕ) (f : Future) (w : World S)
      {r : Scheduler × ℕ} {w' : World S}
      → w.tasks p ≡ some t
      → t.future ≡ some fp
      → w.futures fp ≡ some f
      → run_round al e p s w ≡ some (r, w')
      → (r.0.global_queue ≡ s.global_queue) × (r.0.workers ≡ s.workers)
  run_round-queues e p s t fp f w {r} {w'} et a ef run =
      let same = some-same (sym run ∙ run_round_lem e p s t fp f w et a ef) in
      (
        ap (λ (x : (Scheduler × ℕ) × World S). x.0.0.global_queue) same,
        ap (λ (x : (Scheduler × ℕ) × World S). x.0.0.workers) same,
      )

  -- A worker that took a task with a future, both there, always ends its round: the task moves from
  -- pending to completed, its callback is called unless it was cancelled, the future and the completion
  -- callback are told once, and the task is freed.
  pub run_round-Ran :
      (e : Surroundings) (p : ℕ) (s : Scheduler) (t : Task) (fp : ℕ) (f : Future) (w : World S)
      → w.tasks p ≡ some t
      → t.future ≡ some fp
      → w.futures fp ≡ some f
      → 0 < s.tasks_pending
      → s.tasks_pending < 2 ^ 32
      → s.tasks_active < 2 ^ 32
      → (s' : Scheduler) × (w' : World S) × (run_round al e p s w ≡ some ((s', 0), w'))
        × Ran s s' p (run_events t fp f (not (t.canceled == 0))) w w'
  run_round-Ran e p s t fp f w et a ef lo hi act = (
    finished e s,
    _,
    run_round_lem e p s t fp f w et a ef,
    record {
      pending_less = omega arith;
      completed_more = refl;
      active_kept = omega arith;
      submitted_kept = refl;
      canceled_kept = refl;
      seen = refl;
      gone = update_self (update w.tasks p (some (marked_executed t))) p none;
    },
  )

-- An idle worker waits 1, 2, 4, 8 and then 16 milliseconds, whatever its count of idle rounds.
pub idle_timeout_bounds :
    (backoff : ℕ)
    → (1 ≤ idle_timeout backoff)
      × (idle_timeout backoff ≤ 16)
      × (idle_timeout backoff ≤ idle_timeout (backoff + 1))
      × (idle_timeout (backoff + 4) ≡ 16)
unfolding idle_timeout
idle_timeout_bounds zero = (omega arith, omega arith, omega arith, refl)
idle_timeout_bounds (suc zero) = (omega arith, omega arith, omega arith, refl)
idle_timeout_bounds (suc (suc zero)) = (omega arith, omega arith, omega arith, refl)
idle_timeout_bounds (suc (suc (suc zero))) = (omega arith, omega arith, omega arith, refl)
idle_timeout_bounds (suc (suc (suc (suc n)))) = ground arith
