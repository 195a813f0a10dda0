-- ===== src/Scheduler/Counters/Machine.antt =====
-- The accesses of `fq_scheduler_submit`, `worker_main` and `fq_scheduler_cancel_all` to the counters,
-- one step each. A step belongs to a submission; the threads that make the steps, and the choice
-- among the queued tasks, are left open. The queues are those of `Queue.Concurrent`: a push or a pop
-- is one step.
use fast_queue.Prelude.{ℕ, ◌≡◌, ◌≢◌, some, List, get_elem?, set, replicate, add32, sub32}
use fast_queue.Scheduler.Defs.{Scheduler}

-- How far a submission has come.
pub data Phase : Type 0 where
  ready : Phase
  entered : Phase  -- the shutdown flag read as 0
  noted : Phase  -- counted as submitted
  awaited : Phase  -- counted as pending, at `fq_queue_push`
  queued : Phase
  overflowed : Phase  -- the push failed
  refused : Phase
  taken : Phase  -- popped by a worker
  started : Phase  -- counted as active
  running : Phase  -- no longer counted as pending, at `fq_task_execute`
  executed : Phase
  completed : Phase  -- counted as completed
  finished : Phase  -- no longer counted as active
  drained : Phase  -- drained and destroyed by `fq_scheduler_cancel_all`
  dropped : Phase  -- counted as canceled

-- A step of `fq_scheduler_submit`, and what it does to the scheduler
pub data Submitting (s : Scheduler) : Phase → Scheduler → Phase → Type 0 where
  enter : s.shutdown_flag ≡ 0 → Submitting s ready s entered
  note : Submitting s entered (record s { tasks_submitted = add32 s.tasks_submitted 1 }) noted
  await : Submitting s noted (record s { tasks_pending = add32 s.tasks_pending 1 }) awaited
  push : Submitting s awaited s queued
  overflow : Submitting s awaited s overflowed
  refuse : Submitting s overflowed (record s { tasks_pending = sub32 s.tasks_pending 1 }) refused

-- A step of `worker_main` with a task
pub data Working (s : Scheduler) : Phase → Scheduler → Phase → Type 0 where
  take : Working s queued s taken
  start : Working s taken (record s { tasks_active = add32 s.tasks_active 1 }) started
  unpend : Working s started (record s { tasks_pending = sub32 s.tasks_pending 1 }) running
  execute : Working s running s executed
  complete : Working s executed (record s { tasks_completed = add32 s.tasks_completed 1 }) completed
  finish : Working s completed (record s { tasks_active = sub32 s.tasks_active 1 }) finished

-- A step of `fq_scheduler_cancel_all` with a task, after it has set the shutdown flag
pub data Canceling (s : Scheduler) : Phase → Scheduler → Phase → Type 0 where
  drain : s.shutdown_flag ≢ 0 → Canceling s queued s drained
  drop : Canceling s drained (record s { tasks_canceled = add32 s.tasks_canceled 1 }) dropped

pub data Move (s : Scheduler) (p : Phase) (s' : Scheduler) (p' : Phase) : Type 0 where
  submits : Submitting s p s' p' → Move s p s' p'
  works : Working s p s' p' → Move s p s' p'
  cancels : Canceling s p s' p' → Move s p s' p'

pub record System : Type 0 where
  pub scheduler : Scheduler
  pub submissions : List Phase

pub data Step (y : System) : System → Type 0 where
  pick :
      (i : ℕ) {p p' : Phase} {s' : Scheduler}
      → get_elem? y.submissions i ≡ some p
      → Move y.scheduler p s' p'
      → Step y (record { scheduler = s'; submissions = set y.submissions i p' })
  close : Step y (record y { scheduler = record y.scheduler { shutdown_flag = 1 } })

pub data Run (y : System) : System → Type 0 where
  here : Run y y
  then_step : {z u : System} → Run y z → Step z u → Run y u

-- What `fq_scheduler_create` leaves in the counters
pub record Fresh (s : Scheduler) : Type 0 where
  pub none_submitted : s.tasks_submitted ≡ 0
  pub none_completed : s.tasks_completed ≡ 0
  pub none_canceled : s.tasks_canceled ≡ 0
  pub none_pending : s.tasks_pending ≡ 0
  pub none_active : s.tasks_active ≡ 0

-- `n` submissions to come
abbrev pub start_system : Scheduler → ℕ → System
start_system s n = record { scheduler = s; submissions = replicate n Phase.ready }
