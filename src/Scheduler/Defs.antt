-- ===== src/Scheduler/Defs.antt =====
-- The scheduler's state, its configuration, and the calls that only read or count.
use Prim.Native.String.{String}
use fast_queue.Prelude.{
  ℕ, Bool, true, false, Option, none, some, List, ◌==◌, not, leb, if◌then◌else◌, ◌&&◌, ◌||◌,
  get_elem?, set,
}
use fast_queue.Types.{LogLevel, log_level_value, Ptr}
use fast_queue.Queue.Ring.{Queue, queue_default_capacity}
use fast_queue.World.Defs.{Event, M, pure, emit}

-- `fq_worker_t` without its thread handle and its pointer to the scheduler. Queues hold the
-- addresses of tasks.
pub record Worker : Type 0 where
  pub queue : Queue ℕ
  pub id : ℕ
  pub running : Bool

-- `fq_scheduler_t` without its mutex and condition variable. The counters are patterns of `int`, the
-- times are `uint64_t`.
pub record Scheduler : Type 0 where
  pub workers : List Worker
  pub worker_count : ℕ
  pub global_queue : Queue ℕ
  pub shutdown_flag : ℕ
  pub idle_count : ℕ
  pub tasks_submitted : ℕ
  pub tasks_completed : ℕ
  pub tasks_canceled : ℕ
  pub tasks_pending : ℕ
  pub tasks_active : ℕ
  pub enable_work_stealing : Bool
  pub enable_priority : Bool
  pub total_wait_ns : ℕ
  pub total_work_ns : ℕ
  pub allocator : ℕ
  pub log_callback : Ptr
  pub log_context : ℕ
  pub log_level : LogLevel

-- `fq_scheduler_config_t`
pub record Config : Type 0 where
  pub thread_count : ℕ
  pub queue_capacity : ℕ
  pub enable_work_stealing : Bool
  pub enable_priority : Bool
  pub allocator : Ptr
  pub log_callback : Ptr
  pub log_context : ℕ
  pub log_level : LogLevel

-- FQ_MAX_THREADS and FQ_DEFAULT_THREADS of config.h, and FQ_DEFAULT_LOG_LEVEL of a build without
-- NDEBUG
abbrev pub max_threads : ℕ
max_threads = 256

abbrev pub default_threads : ℕ
default_threads = 0

abbrev pub default_log_level : LogLevel
default_log_level = LogLevel.log_info

-- `fq_scheduler_config_default`
unfoldable pub config_default : Config
config_default = record {
  thread_count = default_threads;
  queue_capacity = queue_default_capacity;
  enable_work_stealing = true;
  enable_priority = false;
  allocator = none;
  log_callback = none;
  log_context = 0;
  log_level = default_log_level;
}

-- The number of worker threads that `fq_scheduler_create` settles on; `cores` is what
-- `fq_hardware_concurrency` returns.
unfoldable pub worker_threads : ℕ → ℕ → ℕ
worker_threads thread_count cores =
    let tc = if thread_count == 0 then cores else thread_count in
    let tc' = if tc == 0 then 1 else tc in if leb tc' max_threads then tc' else max_threads

-- `fq_scheduler_stats_t`
pub record Stats : Type 0 where
  pub thread_count : ℕ
  pub tasks_submitted : ℕ
  pub tasks_completed : ℕ
  pub tasks_canceled : ℕ
  pub tasks_pending : ℕ
  pub tasks_active : ℕ
  pub total_wait_ns : ℕ
  pub total_work_ns : ℕ

-- `fq_scheduler_stats`, on an out pointer that is not NULL with `stats` behind it
unfoldable pub stats : Option Scheduler → Stats → Stats
stats none old = old
stats (some s) old = record {
  thread_count = s.worker_count;
  tasks_submitted = s.tasks_submitted;
  tasks_completed = s.tasks_completed;
  tasks_canceled = s.tasks_canceled;
  tasks_pending = s.tasks_pending;
  tasks_active = s.tasks_active;
  total_wait_ns = s.total_wait_ns;
  total_work_ns = s.total_work_ns;
}

-- `fq_scheduler_is_idle`, with the values of its four reads: of a scheduler that others change in the
-- meantime each may differ.
unfoldable pub idle_reads : ℕ → ℕ → ℕ → ℕ → Bool
idle_reads pending active pending' active' =
    if not (pending == 0) || not (active == 0) then false else pending' == 0 && active' == 0

unfoldable pub is_idle : Option Scheduler → Bool
unfolding idle_reads
is_idle none = true
is_idle (some s) = idle_reads s.tasks_pending s.tasks_active s.tasks_pending s.tasks_active

-- `fq_scheduler_is_shutdown`
unfoldable pub is_shutdown : Option Scheduler → Bool
is_shutdown none = true
is_shutdown (some s) = not (s.shutdown_flag == 0)

module _ {S : Type 0} where
  -- `log_msg`
  unfoldable pub log_msg : Scheduler → LogLevel → String → M S (Unit {0})
  log_msg s level message = elim s.log_callback [
    | none ↦ pure tt
    | some fn ↦
        if leb (log_level_value level) (log_level_value s.log_level)
        then emit (Event.logged fn level message s.log_context)
        else pure tt
  ]

  -- `s->workers[i]`; out of the array it is undefined.
  abbrev pub load_worker : Scheduler → ℕ → M S Worker
  load_worker s i w = elim (get_elem? s.workers i) [ none ↦ none | some k ↦ some (k, w) ]

abbrev pub store_queue : Scheduler → ℕ → Worker → Queue ℕ → Scheduler
store_queue s i k q = record s { workers = set s.workers i (record k { queue = q }) }
