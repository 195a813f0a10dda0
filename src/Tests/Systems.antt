-- ===== src/Tests/Systems.antt =====
-- The atomics, the default allocator over a heap that grows, threads, and the message buffer.
use fast_queue.Prelude.{
  ◌*◌, ℕ, ◌+◌, ◌-◌, ◌^◌, ◌<◌, ◌≡◌, refl, true, false, none, some, List, [], ◌∷◌, ◌++◌, arith, add64,
}
use fast_queue.Atomic.Runs.{
  Operation, load, store, exchange, strong, weak, fetch_add, fetch_sub, fetch_or, fetch_and, msvc,
  promised_run, run_on,
}
use fast_queue.Atomic.Agree.{msvc_runs_promised}
use fast_queue.Memory.Default.{Libc, Default, default_alloc, default_free}
use fast_queue.Memory.Accounts.{
  Accounted, Fresh, Headed, bytes, default_alloc-Accounted, default_free-Accounted,
  default_alloc_wraps,
}
use fast_queue.Platform.Codes.{Code, ThreadArg}
use fast_queue.Platform.Posix
use fast_queue.Platform.Posix.{posix_thread_entry}
use fast_queue.Platform.Windows
use fast_queue.Platform.Windows.{win32_thread_entry}
use fast_queue.Platform.Posix.{Timespec, deadline, sleep_time}
use fast_queue.Platform.Deadline.{nanoseconds, deadline_lem}
use fast_queue.Platform.Threads.{join_exit_code}

-- Every operation on a cell that holds 5, from a load to a subtraction that wraps
abbrev sample_operations : List Operation
sample_operations =
    load
    ∷ exchange 7
    ∷ strong 7 9
    ∷ strong 7 1
    ∷ weak false 9 6
    ∷ fetch_or 1
    ∷ fetch_and 3
    ∷ fetch_add 4
    ∷ fetch_sub 8
    ∷ store 2
    ∷ []

msvc_runs_promised_example :
    run_on msvc 3 0 5 sample_operations ≡ some (promised_run 5 sample_operations)
msvc_runs_promised_example =
    msvc_runs_promised 3 0 sample_operations 5 (omega arith, omega arith, tt)

-- A C library whose `malloc` gives one block after the other.
abbrev growing : Libc ℕ
growing = record {
  malloc = λ n s. (some s, s + 0x100);
  realloc = λ p n s. (some s, s + 0x100);
  free = λ p s. s;
}

abbrev no_blocks : Default ℕ
no_blocks = record {
  libc = 0x1000;
  header = λ b. 0;
  counters = record { alloc_count = 0; free_count = 0; allocated = 0; peak = 0 };
}

no_blocks-Accounted : Accounted no_blocks []
unfolding bytes Headed
no_blocks-Accounted = record {
  allocated_eq = refl;
  alloc_eq = refl;
  free_small = omega arith;
  headed = tt;
}

Fresh-first : Fresh 0x1000 []
unfolding Fresh
Fresh-first = tt

default_alloc-Accounted_example :
    (d' : Default ℕ) × (default_alloc growing (7 ∷ []) 40 no_blocks ≡ (some (add64 0x1000 8), d'))
    × Accounted d' ((0x1000, 40) ∷ [])
default_alloc-Accounted_example =
    default_alloc-Accounted growing (7 ∷ []) 40 0x1000 0x1100 no_blocks [] no_blocks-Accounted refl
      Fresh-first

-- One block of 40 bytes
abbrev one_block : Default ℕ
one_block = record {
  libc = 0x1100;
  header = λ b. 40;
  counters = record { alloc_count = 3; free_count = 2; allocated = 40; peak = 90 };
}

one_block-Accounted : Accounted one_block ([] ++ (0x1000, 40) ∷ [])
unfolding bytes Headed
one_block-Accounted = record {
  allocated_eq = refl;
  alloc_eq = refl;
  free_small = omega arith;
  headed = (refl, tt);
}

default_free-Accounted_example :
    (d' : Default ℕ) × (default_free growing [] (some (add64 0x1000 8)) one_block ≡ d')
    × (d'.libc ≡ 0x1100)
    × Accounted d' []
default_free-Accounted_example =
    default_free-Accounted growing [] [] [] 0x1000 40 one_block one_block-Accounted (omega arith)

default_alloc_wraps_example :
    (d' : Default ℕ) × (default_alloc growing [] (2 ^ 64 - 1) no_blocks
      ≡ (some (add64 0x1000 8), d'))
    × (2 ^ 64 - 1 - (2 ^ 64 - 8) < 8)
    × (d'.header 0x1000 ≡ 2 ^ 64 - 1)
default_alloc_wraps_example =
    default_alloc_wraps growing [] (2 ^ 64 - 1) 0x1000 0x1100 no_blocks (omega arith) (omega arith)
      refl

-- A thread that returns -2
abbrev minus_two : ℕ → ℕ → ℕ
minus_two func arg = 2 ^ 32 - 2

abbrev thread_arg : ThreadArg
thread_arg = record { func = 0x300; arg = 1 }

join_exit_code_example :
    (Posix.thread_join true true
        (posix_thread_entry growing minus_two thread_arg 0x1000 0).0
        (some 9)
      ≡ (Code.success, some (2 ^ 32 - 2)))
    × (Windows.thread_join
          (some 5)
          true
          (win32_thread_entry growing minus_two thread_arg 0x1000 0).0
          (some 9)
        ≡ (Code.success, none, some (2 ^ 32 - 2)))
join_exit_code_example = join_exit_code growing minus_two thread_arg 0x1000 5 9 0 (omega arith)

-- Two readings of the clock; the nanoseconds of the first are above those of the second.
abbrev early : Timespec
early = record { tv_sec = 5; tv_nsec = 900000000 }

abbrev late : Timespec
late = record { tv_sec = 7; tv_nsec = 150000000 }

-- A timeout that carries into the seconds
deadline_example :
    (nanoseconds (deadline early 1250) ≡ nanoseconds early + 1250 * 1000000)
    × ((deadline early 1250).tv_nsec < 1000000000)
    × (nanoseconds (sleep_time 1250) ≡ 1250 * 1000000)
    × ((sleep_time 1250).tv_nsec < 1000000000)
deadline_example = deadline_lem early 1250 (omega arith)
