-- ===== src/Platform/Versions.antt =====
-- Which of the versions of src/platform/platform.c, src/utils/time.c and include/fastqueue/atomic.h are
-- compiled.
use fast_queue.Prelude.{
  ◌≡◌, ◌≢◌, refl, Bool, true, false, Option, none, some, List, [], ◌∷◌, ◌++◌, if◌then◌else◌, not,
  ◌&&◌, ◌||◌, arith,
}
use fast_queue.Platform.Macros.{
  Predefined, stdc_at_least, os_windows, os_posix, compiler_msvc, gnu_like,
}

pub data System : Type 0 where
  posix windows other : System

-- The versions of platform.c that are compiled: `#ifdef FQ_OS_POSIX` and `#ifdef FQ_OS_WINDOWS`
unfoldable pub platform_versions : Predefined → List System
platform_versions m =
    (if os_posix m then System.posix ∷ [] else [])
    ++ (if os_windows m then System.windows ∷ [] else [])

-- The version of `time_now_ns` that is compiled
unfoldable pub time_version : Predefined → System
time_version m =
    if os_windows m then System.windows else if os_posix m then System.posix else System.other

-- `FQ_HAS_STDATOMIC`, for a compiler that has `__STDC_NO_ATOMICS__` or not
unfoldable pub has_stdatomic : Bool → Predefined → Bool
has_stdatomic no_atomics m =
    not (compiler_msvc m) && (stdc_at_least m.stdc_version 201112 && not no_atomics)

pub data AtomicVersion : Type 0 where
  stdatomic intrinsics builtins : AtomicVersion

-- The version of the atomic operations that is compiled, if any
unfoldable pub atomic_version : Bool → Predefined → Option AtomicVersion
atomic_version no_atomics m =
    if has_stdatomic no_atomics m
    then some AtomicVersion.stdatomic
    else if compiler_msvc m
    then some AtomicVersion.intrinsics
    else if gnu_like m
    then some AtomicVersion.builtins
    else none

-- The systems whose version of platform.c time.c goes with
abbrev pub only : System → List System
only System.posix = System.posix ∷ []
only System.windows = System.windows ∷ []
only System.other = []

one_system :
    (p w : Bool)
    → (p && w) ≡ false
    → ((if p then System.posix ∷ [] else []) ++ (if w then System.windows ∷ [] else []))
      ≡ only (if w then System.windows else if p then System.posix else System.other)
one_system true false e = refl
one_system true true e = absurd (cc)
one_system false true e = refl
one_system false false e = refl

-- Unless a compiler claims both a POSIX system and Windows, platform.c has exactly the version that
-- time.c has, and none where time.c falls back on `clock`.
pub versions_lem :
    (m : Predefined)
    → (os_posix m && os_windows m) ≡ false
    → platform_versions m ≡ only (time_version m)
unfolding platform_versions time_version
versions_lem m apart = one_system (os_posix m) (os_windows m) apart

-- With MSVC, GCC, Clang, or a compiler of the 2011 standard that has atomics, there is a version of the atomic
-- operations.
atomic_version-some :
    (no_atomics : Bool) (m : Predefined)
    → (compiler_msvc m || (gnu_like m || (stdc_at_least m.stdc_version 201112 && not no_atomics)))
      ≡ true
    → atomic_version no_atomics m ≢ none
unfolding has_stdatomic atomic_version
atomic_version-some no_atomics m some_compiler nothing = ground arith
