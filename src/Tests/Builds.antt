-- ===== src/Tests/Builds.antt =====
-- A build of the 1999 standard of C with GCC on Linux, and the Win32 clock about a quarter of an hour after its counter began.
use fast_queue.Prelude.{ℕ, ◌^◌, ◌≤◌, ◌≡◌, true, false, some, arith}
use fast_queue.Platform.Macros.{
  Predefined, stdc_at_least, c11_features, c23_features, alignas_text, static_assert_text,
}
use fast_queue.Platform.Features.{features_lem}
use fast_queue.Time.{timer_start, timer_elapsed_ns}
use fast_queue.Time.Clocks.{windows_time_now_ns, windows_clock_overflows}

abbrev gcc_c99 : Predefined
gcc_c99 = record {
  stdc_version = some 199901;
  clang = false;
  gnuc = true;
  msc_ver = false;
  linux = true;
  win32 = false;
  win64 = false;
  apple = false;
  mach = false;
  x86_64 = true;
  m_x64 = false;
  aarch64 = false;
  m_arm64 = false;
  i386 = false;
  m_ix86 = false;
  arm = false;
  m_arm = false;
  building_shared = false;
  shared = false;
}

features_lem_example :
    (c11_features gcc_c99 ≡ true)
    × (c23_features gcc_c99 ≡ true)
    × (alignas_text gcc_c99 ≡ "alignas(n)")
    × (static_assert_text gcc_c99 ≡ "static_assert(cond, msg)")
unfolding stdc_at_least
features_lem_example = features_lem gcc_c99

windows_clock_overflows_example :
    (from to : ℕ) × (windows_time_now_ns 10000000 0 5 ≡ some (from, 10000000))
    × (windows_time_now_ns 10000000 10000000 9223372037 ≡ some (to, 10000000))
    × (2 ^ 63 ≤ to)
    × (2 ^ 63 ≤ timer_elapsed_ns (timer_start (some 0) from) to)
windows_clock_overflows_example =
    windows_clock_overflows 10000000 5 9223372037 0 (omega arith) (omega arith) (omega arith)
      (omega arith) (omega arith)
