-- ===== src/Scheduler/Worker.antt =====
-- One round of the loop of `worker_main`, with the trylock outcomes and the clock as arguments.
use fast_queue.Prelude.{
  ℕ, zero, suc, ◌+◌, ◌%◌, ◌^◌, Bool, true, false, Option, none, some, ◌==◌, not, if◌then◌else◌,
  ◌&&◌, add32, sub32, add64, sub64, ltb,
}
use fast_queue.Types.{status_ok}
use fast_queue.Memory.Allocator.{Allocators}
use fast_queue.Queue.Ring.{try_pop_task, empty}
use fast_queue.World.Defs.{Event, M, ◌>>=◌, ◌>>◌, pure, emit}
use fast_queue.Task
use fast_queue.Scheduler.Defs.{Worker, Scheduler, load_worker, store_queue}

-- What a round meets outside: which trylocks succeed, and the readings of `fq_time_now_ns`.
pub record Surroundings : Type 0 where
  pub global_free : Bool
  pub worker_free : ℕ → Bool
  pub start_ns : ℕ
  pub end_ns : ℕ

-- The outcome of looking for a task: whether a `fq_queue_try_pop` succeeded, the `task` variable, and
-- the scheduler.
abbrev pub Found : Type 0
Found = Bool × Option ℕ × Scheduler

-- `fq_queue_try_pop(s->global_queue, &task)`
abbrev pub pop_global : Bool → Scheduler → Option ℕ → Found
pop_global free s task =
    let (st, task', q) = try_pop_task free s.global_queue task in
    (status_ok st, task', record s { global_queue = q })

-- `1u << (idle_backoff < 4 ? idle_backoff : 4)`, and at most 16
unfoldable pub idle_timeout : ℕ → ℕ
idle_timeout backoff =
    let timeout = 2 ^ (if ltb backoff 4 then backoff else 4) in
    if ltb 16 timeout then 16 else timeout

-- `shutdown_flag != 0 && fq_queue_empty(global_queue) && fq_queue_empty(w->queue)`
unfoldable pub may_exit : Scheduler → Worker → Bool
may_exit s k = not (s.shutdown_flag == 0) && (empty (some s.global_queue) && empty (some k.queue))

module _ {S : Type 0} where
  -- `fq_queue_try_pop(s->workers[i].queue, &task)`
  unfoldable pub pop_worker : Bool → ℕ → Scheduler → Option ℕ → M S Found
  pop_worker free i s task = do
    k ← load_worker s i
    let r = try_pop_task free k.queue task
    pure (status_ok r.0, r.1, store_queue s i k r.2)

  -- The loop of `try_steal`, with `n` rounds left, from `i` on
  unfoldable pub steal_loop : (ℕ → Bool) → ℕ → ℕ → ℕ → Scheduler → Option ℕ → M S Found
  steal_loop free zero i id s task = pure (false, task, s)
  steal_loop free (suc n) i id s task =
      let idx = add32 (add32 id 1) i % s.worker_count in
      let next = steal_loop free n (i + 1) id in
      if idx == id
      then next s task
      else (do r ← pop_worker (free idx) idx s task; if r.0 then pure r else next r.2 r.1)

  -- `try_steal`
  unfoldable pub try_steal : (ℕ → Bool) → ℕ → Scheduler → Option ℕ → M S Found
  try_steal free id s task = steal_loop free s.worker_count 0 id s task

  -- `s->enable_work_stealing && try_steal(s, w, &task)`
  abbrev pub steal_if_enabled : (ℕ → Bool) → ℕ → Scheduler → Option ℕ → M S Found
  steal_if_enabled free id s task =
      if s.enable_work_stealing then try_steal free id s task else pure (false, task, s)

  -- The search for a task, in the order that the priority setting asks for
  unfoldable pub find_task : Surroundings → ℕ → Scheduler → M S Found
  find_task e id s =
      if s.enable_priority
      then (let g = pop_global e.global_free s none in
          if g.0 then pure g else (do
            o ← pop_worker (e.worker_free id) id g.2 g.1
            if o.0 then pure o else steal_if_enabled e.worker_free id o.2 o.1))
      else (do
        o ← pop_worker (e.worker_free id) id s none
        if o.0 then pure o else (do
          t ← steal_if_enabled e.worker_free id o.2 o.1
          pure (if t.0 then t else pop_global e.global_free t.2 t.1)))

  -- The round of a worker that found nothing: it waits if both of its queues are empty.
  unfoldable pub idle_round : Surroundings → ℕ → Scheduler → ℕ → M S (Scheduler × ℕ)
  idle_round e id s backoff = do
    k ← load_worker s id
    let waits = empty (some s.global_queue) && empty (some k.queue)
    (if waits then emit (Event.waited (idle_timeout backoff)) else pure tt)
    pure (
      record s {
        total_wait_ns = add64 s.total_wait_ns (sub64 e.end_ns e.start_ns);
        idle_count = sub32 (add32 s.idle_count 1) 1;
      },
      if waits && ltb backoff 6 then backoff + 1 else backoff,
    )

  module _ (al : Allocators S) where
    -- The round of a worker that found a task
    unfoldable pub run_round : Surroundings → ℕ → Scheduler → M S (Scheduler × ℕ)
    run_round e task s = do
      let taken = record s {
        tasks_active = add32 s.tasks_active 1;
        tasks_pending = sub32 s.tasks_pending 1;
      }
      Task.execute (some task)
      Task.destroy al (some task)
      pure (
        record taken {
          tasks_completed = add32 taken.tasks_completed 1;
          tasks_active = sub32 taken.tasks_active 1;
          total_work_ns = add64 taken.total_work_ns (sub64 e.end_ns e.start_ns);
        },
        0,
      )

    -- A round of the loop of `worker_main`: whether the worker leaves the loop, the scheduler, and
    -- `idle_backoff`.
    unfoldable pub worker_round : Surroundings → ℕ → Scheduler → ℕ → M S (Bool × Scheduler × ℕ)
    worker_round e id s backoff = do
      k ← load_worker s id
      if may_exit s k then pure (true, s, backoff) else (do
        f ← find_task e id s
        r ← elim f.1 [
          | none ↦ idle_round e id f.2 backoff
          | some task ↦ if f.0 then run_round e task f.2 else idle_round e id f.2 backoff
        ]
        pure (false, r.0, r.1))
