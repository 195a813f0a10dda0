-- ===== src/Time.antt =====
-- src/utils/time.c: an `int64_t` is its pattern, and what the system's clocks read is an argument. The
-- clocks of Win32 and of other systems are in Time.Clocks.
pub mod Clocks
use fast_queue.Prelude.{
  ℕ, ◌+◌, ◌-◌, ◌*◌, ◌/◌, ◌^◌, ◌≤◌, ◌<◌, ◌≡◌, Option, none, some, ltb, if◌then◌else◌, u64, sub64,
  arith,
}
use fast_queue.Platform.Posix.{Timespec}
use fast_queue.Platform.Deadline.{nanoseconds}

-- `fq_time_now_ns` over POSIX
unfoldable pub time_now_ns : Timespec → ℕ
time_now_ns ts = u64 (u64 (ts.tv_sec * 1000000000) + ts.tv_nsec)

-- `fq_timer_start`; the option is `timer->start_ns`, and `now` what `fq_time_now_ns` returns.
unfoldable pub timer_start : Option ℕ → ℕ → Option ℕ
timer_start none now = none
timer_start (some old) now = some now

-- `fq_timer_elapsed_ns`
unfoldable pub timer_elapsed_ns : Option ℕ → ℕ → ℕ
timer_elapsed_ns none now = 0
timer_elapsed_ns (some start_ns) now = sub64 now start_ns

-- `/ 1000000` on an `int64_t`, which rounds towards 0
unfoldable pub div_million : ℕ → ℕ
div_million x = if ltb x (2 ^ 63) then x / 1000000 else sub64 0 ((2 ^ 64 - x) / 1000000)

-- `fq_timer_elapsed_ms`
unfoldable pub timer_elapsed_ms : Option ℕ → ℕ → ℕ
timer_elapsed_ms timer now = div_million (timer_elapsed_ns timer now)

-- Over POSIX, a timer that is started at one reading of the clock and read at a later one gives the time between
-- the two readings, in nanoseconds and in whole milliseconds, if the later one is below 2^63
-- nanoseconds.
pub timer_elapsed-start :
    (old : ℕ) (from to : Timespec)
    → nanoseconds from ≤ nanoseconds to
    → nanoseconds to < 2 ^ 63
    → let timer = timer_start (some old) (time_now_ns from) in
      (timer_elapsed_ns timer (time_now_ns to) ≡ nanoseconds to - nanoseconds from)
      × (timer_elapsed_ms timer (time_now_ns to) ≡ (nanoseconds to - nanoseconds from) / 1000000)
unfolding timer_elapsed_ns timer_elapsed_ms timer_start time_now_ns div_million
timer_elapsed-start old from to le small = (omega arith, ground arith)
