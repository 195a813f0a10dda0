-- ===== src/ThreadPool.antt =====
-- src/thread/thread_pool.c: a thread pool is a scheduler, and its calls are the scheduler's under
-- other names.
use fast_queue.Prelude.{ℕ, Bool, Option, none, some, List}
use fast_queue.Types.{Status, Ptr}
use fast_queue.Memory.Allocator.{Allocators}
use fast_queue.World.Defs.{M}
use fast_queue.Scheduler.Defs.{Scheduler, Stats, Config, config_default, stats, is_idle}
use fast_queue.Future.Wait.{Pause}
use fast_queue.Scheduler.Life.{Platform, Creation, Handle, create, shutdown}
use fast_queue.Scheduler.Idle.{wait_idle}
use fast_queue.Scheduler.Submit.{submit, submit_with_future, submit_fn}

-- The configuration of `fq_thread_pool_create_ex`
unfoldable pub pool_config : ℕ → Config
pool_config thread_count = record config_default { thread_count = thread_count }

module _ {S : Type 0} (al : Allocators S) where
  -- `fq_thread_pool_create`
  unfoldable pub pool_create : Platform → Bool → M S Creation
  pool_create platform given = create al platform given none

  -- `fq_thread_pool_create_ex`
  unfoldable pub pool_create_ex : Platform → Bool → ℕ → M S Creation
  pool_create_ex platform given thread_count =
      create al platform given (some (pool_config thread_count))

  -- `fq_thread_pool_create_configured`
  unfoldable pub pool_create_configured : Platform → Bool → Option Config → M S Creation
  pool_create_configured platform given config = create al platform given config

  -- `fq_thread_pool_shutdown`
  unfoldable pub pool_shutdown : (Scheduler → M S (Unit {0})) → Option Handle → M S Status
  pool_shutdown joined pool = shutdown al joined pool

-- `fq_thread_pool_wait_idle`
unfoldable pub pool_wait_idle : (ℕ → Option Scheduler) → ℕ → Option (List Pause)
pool_wait_idle seen fuel = wait_idle seen fuel 0

module _ {S : Type 0} where
  -- `fq_thread_pool_submit` on a pool that is not NULL
  unfoldable pub pool_submit : Scheduler → Ptr → ℕ → M S (Status × Scheduler × ℕ)
  pool_submit pool task next_worker = submit pool task next_worker

  module _ (al : Allocators S) where
    -- `fq_thread_pool_submit_fn`
    unfoldable pub pool_submit_fn : Scheduler → Ptr → ℕ → ℕ → M S (Status × Scheduler × ℕ)
    pool_submit_fn pool fn user_data next_worker = submit_fn al pool fn user_data next_worker

    -- `fq_thread_pool_submit_with_future`
    unfoldable pub pool_submit_with_future :
        Scheduler → Ptr → Bool → Bool → ℕ → M S (Status × Ptr × Scheduler × ℕ)
    pool_submit_with_future pool task mutex_ok cond_ok next_worker =
        submit_with_future al pool task mutex_ok cond_ok next_worker

-- `fq_thread_pool_is_idle`
unfoldable pub pool_is_idle : Option Scheduler → Bool
pool_is_idle pool = is_idle pool

-- `fq_thread_pool_size`; `garbage` is what the local `stats` holds before the call.
unfoldable pub pool_size : Option Scheduler → Stats → ℕ
pool_size none garbage = 0
pool_size (some pool) garbage = (stats (some pool) garbage).thread_count

-- `fq_thread_pool_stats`
unfoldable pub pool_stats : Option Scheduler → Stats → Stats
pool_stats pool old = stats pool old
