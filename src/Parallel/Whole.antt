-- ===== src/Parallel/Whole.antt =====
-- What the tasks of `fq_scheduler_parallel_for` call, whichever submission fails.
use fast_queue.Prelude.{ℕ, ◌-◌, ◌<◌, ◌≡◌, ◌⊎◌, false, Option, some, if◌then◌else◌, take}
use fast_queue.Types.{Status, status_ok}
use fast_queue.Memory.Allocator.{Allocators}
use fast_queue.World.Defs.{Event, World, M, ◌>>◌, pure, emit}
use fast_queue.Scheduler.Defs.{Scheduler}
use fast_queue.Parallel.Ranges.{all_calls}
use fast_queue.Parallel.Interval.{interval}
use fast_queue.Parallel.Submit.{Started}
use fast_queue.Parallel.Returns.{ranges_of}

-- The calls of the tasks that were submitted: all of the loop's if the status is FQ_OK, and otherwise
-- some of the first of them.
abbrev pub Called : ℕ → ℕ → ℕ → Started → Type 0
Called fuel first last x =
    ((x.0 ≡ Status.ok) × (all_calls fuel (ranges_of x) ≡ some (interval first (last - first))))
    ⊎ ((status_ok x.0 ≡ false)
        × (m : ℕ) × (m < last - first)
        × (all_calls fuel (ranges_of x) ≡ some (take m (interval first (last - first)))))

module _ {S : Type 0} (al : Allocators S) (worker fuel first last : ℕ) (s : Scheduler) (n : ℕ)
    (w : World S) where
  -- The end of `fq_scheduler_parallel_for`
  abbrev finish : Started → M S (Status × Option Started)
  finish r = do (if status_ok r.0 then emit Event.waited_idle else pure tt); pure (r.0, some r)
