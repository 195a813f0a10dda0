-- ===== src/Platform/Macros.antt =====
-- The macros of include/fastqueue/platform.h, as functions of those that the compiler and the build
-- predefine. The body of a macro is its text.
use Prim.Native.String.{String}
use fast_queue.Prelude.{ℕ, Bool, false, Option, none, some, if◌then◌else◌, leb, not, ◌&&◌, ◌||◌}

-- The predefined macros that the header looks at: the value of `__STDC_VERSION__`, and which of the
-- others are defined.
pub record Predefined : Type 0 where
  pub stdc_version : Option ℕ
  pub clang : Bool
  pub gnuc : Bool
  pub msc_ver : Bool
  pub linux : Bool
  pub win32 : Bool
  pub win64 : Bool
  pub apple : Bool
  pub mach : Bool
  pub x86_64 : Bool
  pub m_x64 : Bool
  pub aarch64 : Bool
  pub m_arm64 : Bool
  pub i386 : Bool
  pub m_ix86 : Bool
  pub arm : Bool
  pub m_arm : Bool
  pub building_shared : Bool
  pub shared : Bool

-- `defined(__STDC_VERSION__) && __STDC_VERSION__ >= version`
unfoldable pub stdc_at_least : Option ℕ → ℕ → Bool
stdc_at_least none version = false
stdc_at_least (some stdc) version = leb version stdc

-- `FQ_C_VERSION`
unfoldable pub c_version : Predefined → ℕ
c_version m =
    if stdc_at_least m.stdc_version 202311
    then 2300
    else if stdc_at_least m.stdc_version 201710
    then 1700
    else if stdc_at_least m.stdc_version 201112
    then 1100
    else if stdc_at_least m.stdc_version 199901
    then 9900
    else 9900

-- Whether `FQ_C11_FEATURES` and `FQ_C23_FEATURES` are defined
unfoldable pub c11_features : Predefined → Bool
c11_features m = leb 1100 (c_version m)

unfoldable pub c23_features : Predefined → Bool
c23_features m = leb 2300 (c_version m)

-- `FQ_COMPILER_GCC`, `FQ_COMPILER_CLANG`, `FQ_COMPILER_MSVC`
abbrev pub compiler_gcc : Predefined → Bool
compiler_gcc m = m.gnuc && not m.clang

abbrev pub compiler_clang : Predefined → Bool
compiler_clang m = m.clang

abbrev pub compiler_msvc : Predefined → Bool
compiler_msvc m = m.msc_ver

-- `FQ_OS_LINUX`, `FQ_OS_WINDOWS`, `FQ_OS_MACOS`, `FQ_OS_POSIX`
abbrev pub os_linux : Predefined → Bool
os_linux m = m.linux

abbrev pub os_windows : Predefined → Bool
os_windows m = m.win32 || m.win64

abbrev pub os_macos : Predefined → Bool
os_macos m = m.apple && m.mach

abbrev pub os_posix : Predefined → Bool
os_posix m = os_linux m || os_macos m

-- `FQ_ARCH_X86_64`, `FQ_ARCH_ARM64`, `FQ_ARCH_X86`, `FQ_ARCH_ARM`
abbrev arch_x86_64 : Predefined → Bool
arch_x86_64 m = m.x86_64 || m.m_x64

abbrev arch_arm64 : Predefined → Bool
arch_arm64 m = m.aarch64 || m.m_arm64

abbrev arch_x86 : Predefined → Bool
arch_x86 m = m.i386 || m.m_ix86

abbrev arch_arm : Predefined → Bool
arch_arm m = m.arm || m.m_arm

-- `defined(FQ_COMPILER_GCC) || defined(FQ_COMPILER_CLANG)`
abbrev pub gnu_like : Predefined → Bool
gnu_like m = compiler_gcc m || compiler_clang m

-- `FQ_INLINE`
unfoldable pub inline_text : Predefined → String
inline_text m =
    if compiler_msvc m
    then "__forceinline"
    else if gnu_like m
    then "static inline __attribute__((always_inline))"
    else "static inline"

-- `FQ_NOINLINE`
unfoldable pub noinline_text : Predefined → String
noinline_text m =
    if compiler_msvc m
    then "__declspec(noinline)"
    else if gnu_like m
    then "__attribute__((noinline))"
    else ""

-- `FQ_EXPORT`
unfoldable pub export_text : Predefined → String
export_text m =
    if os_windows m
    then (if m.building_shared
        then "__declspec(dllexport)"
        else if m.shared
        then "__declspec(dllimport)"
        else "")
    else if m.building_shared
    then "__attribute__((visibility(\"default\")))"
    else ""

-- `FQ_NODISCARD`
unfoldable pub nodiscard_text : Predefined → String
nodiscard_text m =
    if gnu_like m
    then "__attribute__((warn_unused_result))"
    else if compiler_msvc m
    then "_Check_return_"
    else ""

-- `FQ_PRINTF_FMT`
unfoldable pub printf_fmt_text : Predefined → String
printf_fmt_text m = if gnu_like m then "__attribute__((format(printf, fmt, args)))" else ""

-- `FQ_DEPRECATED`
unfoldable pub deprecated_text : Predefined → String
deprecated_text m =
    if gnu_like m
    then "__attribute__((deprecated))"
    else if compiler_msvc m
    then "__declspec(deprecated)"
    else ""

-- `FQ_ALIGNAS(n)`
unfoldable pub alignas_text : Predefined → String
alignas_text m =
    if c23_features m
    then "alignas(n)"
    else if c11_features m
    then "_Alignas(n)"
    else if compiler_msvc m
    then "__declspec(align(n))"
    else if gnu_like m
    then "__attribute__((aligned(n)))"
    else ""

-- `FQ_STATIC_ASSERT(cond, msg)`
unfoldable pub static_assert_text : Predefined → String
static_assert_text m =
    if c23_features m
    then "static_assert(cond, msg)"
    else if c11_features m
    then "_Static_assert(cond, msg)"
    else if compiler_msvc m
    then "static_assert(cond, msg)"
    else if gnu_like m
    then "_Static_assert(cond, msg)"
    else "typedef char fq_sa_##__LINE__[(cond) ? 1 : -1]"

-- `FQ_UNUSED`
unfoldable pub unused_text : Predefined → String
unused_text m =
    if gnu_like m
    then "__attribute__((unused))"
    else if compiler_msvc m
    then "__pragma(warning(suppress : 4100))"
    else ""
