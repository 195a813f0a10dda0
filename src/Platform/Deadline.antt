-- ===== src/Platform/Deadline.antt =====
-- The deadline arithmetic of the POSIX version.
use fast_queue.Prelude.{ℕ, ◌+◌, ◌*◌, ◌<◌, ◌≡◌, arith}
use fast_queue.Platform.Posix.{Timespec, deadline, sleep_time}

-- The time in nanoseconds
abbrev pub nanoseconds : Timespec → ℕ
nanoseconds t = t.tv_sec * 1000000000 + t.tv_nsec

-- From a reading of the clock whose nanoseconds are below 10^9, the deadline of a timed wait is that
-- time and the timeout together, in nanoseconds, and the time to sleep is the milliseconds asked for;
-- the nanoseconds field of both is below 10^9.
pub deadline_lem :
    (now : Timespec) (ms : ℕ)
    → now.tv_nsec < 1000000000
    → (nanoseconds (deadline now ms) ≡ nanoseconds now + ms * 1000000)
      × ((deadline now ms).tv_nsec < 1000000000)
      × (nanoseconds (sleep_time ms) ≡ ms * 1000000)
      × ((sleep_time ms).tv_nsec < 1000000000)
unfolding deadline sleep_time
deadline_lem now ms h = (ground arith, ground arith, ground arith, ground arith)
