-- ===== src/Scheduler/Life.antt =====
-- `fq_scheduler_create` and `fq_scheduler_shutdown`: the blocks that they take and give back, and the
-- workers that they start.
use fast_queue.Prelude.{
  ℕ, zero, suc, ◌+◌, ◌/◌, Bool, true, Option, none, some, List, [], ◌∷◌, ◌++◌, not, if◌then◌else◌,
}
use fast_queue.Types.{Status, LogLevel, Ptr}
use fast_queue.Memory.Allocator.{Allocators, resolve, fq_calloc, fq_free}
use fast_queue.Queue.Ring.{Queue}
use fast_queue.Queue.Ring
use fast_queue.World.Defs.{Event, M, ◌>>◌, pure, emit}
use fast_queue.Scheduler.Defs.{Worker, Scheduler, Config, config_default, worker_threads, log_msg}

-- `sizeof(fq_scheduler_t)` and `sizeof(fq_worker_t)` on x86-64 Linux
abbrev pub sizeof_scheduler : ℕ
sizeof_scheduler = 200

abbrev pub sizeof_worker : ℕ
sizeof_worker = 96

-- A scheduler with its own address and that of its array of workers
pub record Handle : Type 0 where
  pub self : Ptr
  pub workers_at : Ptr
  pub sched : Scheduler

-- How `fq_scheduler_create` ends. It hangs where it joins a worker: a worker leaves its loop only when
-- the shutdown flag is set, and nobody else has the scheduler's address yet.
pub data Creation : Type 0 where
  made : Handle → Creation
  refused : Status → Creation
  hung : Creation

-- How the loop over the workers ends: with the workers that were started, and what failed.
pub data Launch : Type 0 where
  launched : List Worker → Launch
  no_queue : Status → List Worker → Launch
  no_thread : List Worker → Launch

-- What the platform answers: whether the initialisations and the threads succeed.
pub record Platform : Type 0 where
  pub cores : ℕ
  pub mutex_ok : Bool
  pub cond_ok : Bool
  pub thread_ok : ℕ → Bool

-- The fields of a new scheduler
abbrev pub new_scheduler : Config → ℕ → Queue ℕ → List Worker → ℕ → Scheduler
new_scheduler cfg tc global workers allocator = record {
  workers = workers;
  worker_count = tc;
  global_queue = global;
  shutdown_flag = 0;
  idle_count = 0;
  tasks_submitted = 0;
  tasks_completed = 0;
  tasks_canceled = 0;
  tasks_pending = 0;
  tasks_active = 0;
  enable_work_stealing = cfg.enable_work_stealing;
  enable_priority = cfg.enable_priority;
  total_wait_ns = 0;
  total_work_ns = 0;
  allocator = allocator;
  log_callback = cfg.log_callback;
  log_context = cfg.log_context;
  log_level = cfg.log_level;
}

abbrev pub new_worker : Queue ℕ → ℕ → Worker
new_worker q i = record { queue = q; id = i; running = true }

module _ {S : Type 0} (al : Allocators S) where
  -- `fq_queue_destroy` of each worker's queue, in order
  unfoldable pub destroy_queues : List Worker → S → S
  destroy_queues [] h = h
  destroy_queues (k ∷ ks) h = destroy_queues ks (Ring.destroy al (some k.queue) h)

  -- The frees that the end of `fq_scheduler_shutdown` and the failures of `fq_scheduler_create` share.
  abbrev pub release : ℕ → Ptr → Ptr → Queue ℕ → List Worker → S → S
  release allocator self workers_at global workers h = fq_free al (some allocator) self (
      Ring.destroy al (some global)
        (fq_free al (some allocator) workers_at (destroy_queues workers h)))

  module _ (platform : Platform) (cfg : Config) (tc : ℕ) where
    abbrev pub allocator_of : ℕ
    allocator_of = resolve cfg.allocator

    abbrev pub after_queue :
        ℕ → List Worker → (Queue ℕ → S → Launch × S) → Status × Option (Queue ℕ) × S → Launch × S
    after_queue i ws next (st, none, h) = (no_queue st ws, h)
    after_queue i ws next (st, some q, h) =
        if platform.thread_ok i then next q h else (no_thread ws, Ring.destroy al (some q) h)

    -- The loop over the workers, with `n` rounds left, from the worker `i` on
    unfoldable pub launch : ℕ → ℕ → List Worker → S → Launch × S
    launch zero i ws h = (launched ws, h)
    launch (suc n) i ws h =
        after_queue i ws (λ q h'. launch n (i + 1) (ws ++ new_worker q i ∷ []) h')
          (Ring.create al true (cfg.queue_capacity / tc) (some allocator_of) h)

    module _ (self : Ptr) (global : Queue ℕ) where
      -- A failure in the loop: the joins of the workers that were started, and the frees.
      abbrev pub abandon : Status → Ptr → List Worker → S → Creation × S
      abandon st workers_at [] h = (refused st, release allocator_of self workers_at global [] h)
      abandon st workers_at (k ∷ ks) h = (hung, h)

      abbrev pub after_launch : Ptr → Launch × S → Creation × S
      after_launch workers_at (launched ws, h) = (
        made (record {
          self = self;
          workers_at = workers_at;
          sched = new_scheduler cfg tc global ws allocator_of;
        }),
        h,
      )
      after_launch workers_at (no_queue st ws, h) = abandon st workers_at ws h
      after_launch workers_at (no_thread ws, h) = abandon Status.err_internal workers_at ws h

      abbrev pub give_up : Status → S → Creation × S
      give_up st h =
          (refused st, fq_free al (some allocator_of) self (Ring.destroy al (some global) h))

      -- From the allocation of the array of workers on
      abbrev pub after_array : Ptr × S → Creation × S
      after_array (none, h) = give_up Status.err_nomem h
      after_array (some p, h) = after_launch (some p) (launch tc 0 [] h)

    -- From the creation of the global queue on
    abbrev pub after_global : Ptr → Status × Option (Queue ℕ) × S → Creation × S
    after_global self (st, none, h) = (refused st, fq_free al (some allocator_of) self h)
    after_global self (st, some g, h) =
        if not platform.mutex_ok
        then give_up self g Status.err_internal h
        else if not platform.cond_ok
        then give_up self g Status.err_internal h
        else after_array self g (fq_calloc al (some allocator_of) tc sizeof_worker h)

    -- From the allocation of the scheduler on
    abbrev pub after_self : Ptr × S → Creation × S
    after_self (none, h) = (refused Status.err_nomem, h)
    after_self (some p, h) =
        after_global (some p) (Ring.create al true cfg.queue_capacity (some allocator_of) h)

  -- `fq_scheduler_create` on an out pointer that is not NULL, but for its log message
  unfoldable pub create_on : Platform → Config → S → Creation × S
  create_on platform cfg h =
      after_self platform cfg (worker_threads cfg.thread_count platform.cores)
        (fq_calloc al (some (resolve cfg.allocator)) 1 sizeof_scheduler h)

  -- `config ? *config : default`
  abbrev pub config_or_default : Option Config → Config
  config_or_default none = config_default
  config_or_default (some cfg) = cfg

  abbrev pub log_created : Creation → M S (Unit {0})
  log_created (made h) = log_msg h.sched LogLevel.log_info "scheduler created"
  log_created (refused st) = pure tt
  log_created hung = pure tt

  -- `fq_scheduler_create`; `given` is whether the out pointer is not NULL.
  unfoldable pub create : Platform → Bool → Option Config → M S Creation
  create platform given config w =
      if not given
      then some (refused Status.err_inval, w)
      else (let (c, h) = create_on platform (config_or_default config) w.heap in
          (log_created c >> pure c) (record w { heap = h }))

  -- The frees of `fq_scheduler_shutdown`
  unfoldable pub release_scheduler : Handle → S → S
  release_scheduler x h =
      release x.sched.allocator x.self x.workers_at x.sched.global_queue x.sched.workers h

  -- `fq_scheduler_shutdown`; `joined` is what the workers do until the last of them is joined. They leave
  -- the addresses of the scheduler's blocks as they are.
  unfoldable pub shutdown : (Scheduler → M S (Unit {0})) → Option Handle → M S Status
  shutdown joined none = pure Status.err_inval
  shutdown joined (some x) = do
    log_msg x.sched LogLevel.log_info "scheduler shutting down"
    emit Event.woke_workers
    joined (record x.sched { shutdown_flag = 1 })
    (λ w. some (Status.ok, record w { heap = release_scheduler x w.heap }))
