-- ===== src/Time/Clocks.antt =====
-- The clocks of src/utils/time.c over Win32 and over systems that are neither Win32 nor POSIX.
use fast_queue.Prelude.{
  ℕ, ◌+◌, ◌*◌, ◌-◌, ◌/◌, ◌^◌, ◌≤◌, ◌<◌, ◌≡◌, Option, none, some, ltb, leb, if◌then◌else◌, u64,
  sub64, ◌==◌, arith,
}
use native.Mathlib.Nat.{div-lt_iff_lt-mul, le-div_iff_mul-le}
use fast_queue.Time.{timer_start, timer_elapsed_ns}

-- The absolute value, as a number
abbrev magnitude : ℕ → ℕ
magnitude x = if ltb x (2 ^ 63) then x else 2 ^ 64 - x

-- `/` on two `int64_t`, which rounds towards 0
unfoldable pub div_int64 : ℕ → ℕ → ℕ
div_int64 x y =
    let quotient = magnitude x / magnitude y in
    if leb (2 ^ 63) x
    then (if leb (2 ^ 63) y then u64 quotient else sub64 0 quotient)
    else if leb (2 ^ 63) y
    then sub64 0 quotient
    else quotient

-- `time_now_ns` over Win32: `freq` is the static variable, `queried` what `QueryPerformanceFrequency`
-- stores, and `counter` what `QueryPerformanceCounter` stores. The results are the time and the static
-- variable; a division by 0 has none.
unfoldable pub windows_time_now_ns : ℕ → ℕ → ℕ → Option (ℕ × ℕ)
windows_time_now_ns queried freq counter =
    let freq' = if freq == 0 then queried else freq in
    if freq' == 0 then none else some (div_int64 (u64 (counter * 1000000000)) freq', freq')

-- `time_now_ns` with the C library's `clock`, which reads `ticks`, at `CLOCKS_PER_SEC` ticks a second
unfoldable pub clock_time_now_ns : ℕ → ℕ → ℕ
clock_time_now_ns per_sec ticks = u64 (ticks * (1000000000 / per_sec))

-- The Win32 clock at its first call, at `freq` ticks a second: the time is right while the counter times
-- 10^9 is below 2^63.
pub windows_clock_lem :
    (freq counter : ℕ)
    → 0 < freq
    → freq < 2 ^ 63
    → counter * 1000000000 < 2 ^ 63
    → windows_time_now_ns freq 0 counter ≡ some (counter * 1000000000 / freq, freq)
unfolding windows_time_now_ns div_int64
windows_clock_lem freq counter some_freq small early = ground arith

half_at_most : (x freq : ℕ) → 2 ≤ freq → x ≤ 2 ^ 63 → x / freq ≤ 2 ^ 62
half_at_most x freq two small =
    omega
      (arith, (div-lt_iff_lt-mul {k = freq} {x = x} {y = 2 ^ 62 + 1} (omega arith)).1 (omega arith))

one_at_least : (x freq : ℕ) → 0 < freq → freq ≤ x → 1 ≤ x / freq
one_at_least x freq some_freq big =
    (le-div_iff_mul-le {k = freq} {x = 1} {y = x} some_freq).1 (omega arith)

-- The Win32 clock fails, at two or more ticks a second: from the tick at which the counter times 10^9
-- reaches 2^63 (at 10^7 ticks a second, 923 seconds after the counter began) almost to the one at which
-- it reaches 2^64, the time is negative, and so is what a timer counts that was started before.
pub windows_clock_overflows :
    (freq early late old : ℕ)
    → 2 ≤ freq
    → freq < 2 ^ 63
    → early * 1000000000 < 2 ^ 63
    → 2 ^ 63 ≤ late * 1000000000
    → late * 1000000000 + freq ≤ 2 ^ 64
    → (from to : ℕ) × (windows_time_now_ns freq 0 early ≡ some (from, freq))
      × (windows_time_now_ns freq freq late ≡ some (to, freq))
      × (2 ^ 63 ≤ to)
      × (2 ^ 63 ≤ timer_elapsed_ns (timer_start (some old) from) to)
unfolding windows_time_now_ns div_int64 timer_elapsed_ns timer_start
windows_clock_overflows freq early late old two small before reached below =
    let lost = 2 ^ 64 - late * 1000000000 in
    let q = half_at_most lost freq two (omega arith) in
    let p = one_at_least lost freq (omega arith) (omega arith) in
    let q0 = half_at_most (early * 1000000000) freq two (omega arith) in
    (
      early * 1000000000 / freq,
      2 ^ 64 - lost / freq,
      windows_clock_lem freq early (omega arith) small before,
      ground arith,
      omega (arith, q),
      omega (arith, q, p, q0),
    )
