-- ===== src/Platform/Posix.antt =====
-- The POSIX version. A `struct timespec` has its nanoseconds apart; `H` is the native type of a mutex or
-- of a condition variable, and the pthread calls on it are arguments.
use fast_queue.Prelude.{
  ℕ, ◌+◌, ◌-◌, ◌*◌, ◌/◌, ◌%◌, ◌^◌, Bool, true, false, Option, none, some, ltb, leb, if◌then◌else◌,
  u32, ◌&&◌,
}
use fast_queue.Types.{Ptr}
use fast_queue.Memory.Default.{Libc}
use fast_queue.Platform.Codes.{Code, code_of, sizeof_thread_arg, ThreadArg}

-- `(void *)(intptr_t)rc`: an `int` is extended by its sign.
unfoldable pub ptr_of_int : ℕ → ℕ
ptr_of_int rc = if ltb rc (2 ^ 31) then rc else rc + (2 ^ 64 - 2 ^ 32)

-- `(int)(intptr_t)retval`
unfoldable pub int_of_ptr : ℕ → ℕ
int_of_ptr retval = u32 retval

module _ {S : Type 0} (c : Libc S) where
  -- `posix_thread_entry`: the block of the argument is freed, and then the function runs; `run` gives its
  -- result.
  unfoldable pub posix_thread_entry : (ℕ → ℕ → ℕ) → ThreadArg → ℕ → S → ℕ × S
  posix_thread_entry run ta raw s = (ptr_of_int (run ta.func ta.arg), c.free raw s)

  abbrev pub after_malloc : Bool → ℕ → ℕ → Ptr × S → Code × Option (ThreadArg × ℕ) × S
  after_malloc created func arg (none, s) = (Code.failure, none, s)
  after_malloc created func arg (some ta, s) =
      if created
      then (Code.success, some (record { func = func; arg = arg }, ta), s)
      else (Code.failure, none, c.free ta s)

  -- `fq_thread_create`; `created` is whether `pthread_create` succeeds. The option is what the new thread
  -- is started with.
  unfoldable pub thread_create : Bool → Bool → Ptr → ℕ → S → Code × Option (ThreadArg × ℕ) × S
  thread_create created false func arg s = (Code.failure, none, s)
  thread_create created true none arg s = (Code.failure, none, s)
  thread_create created true (some func) arg s =
      after_malloc created func arg (c.malloc sizeof_thread_arg s)

-- `fq_thread_join`; `joined` is whether `pthread_join` succeeds, and `retval` what it stores, NULL if
-- nothing. The option is `*exit_code`.
unfoldable pub thread_join : Bool → Bool → ℕ → Option ℕ → Code × Option ℕ
thread_join given joined retval none = (if given then code_of joined else Code.failure, none)
thread_join false joined retval (some old) = (Code.failure, some old)
thread_join true joined retval (some old) = (code_of joined, some (int_of_ptr retval))

-- `fq_thread_detach`
unfoldable pub thread_detach : Bool → Bool → Code
thread_detach false detached = Code.failure
thread_detach true detached = code_of detached

-- `fq_hardware_concurrency`; `n` is the pattern of the `long` that `sysconf` returns.
unfoldable pub hardware_concurrency : ℕ → ℕ
hardware_concurrency n = if ltb 0 n && ltb n (2 ^ 63) then u32 n else 1

pub record Timespec : Type 0 where
  pub tv_sec : ℕ
  pub tv_nsec : ℕ

-- The time that `fq_thread_sleep_ms` asks for
unfoldable pub sleep_time : ℕ → Timespec
sleep_time ms = record { tv_sec = ms / 1000; tv_nsec = ms % 1000 * 1000000 }

-- The deadline of `fq_condition_timedwait`, from the time of the clock
unfoldable pub deadline : Timespec → ℕ → Timespec
deadline now timeout_ms =
    let sec = now.tv_sec + timeout_ms / 1000 in
    let nsec = now.tv_nsec + timeout_ms % 1000 * 1000000 in
    if leb 1000000000 nsec
    then record { tv_sec = sec + 1; tv_nsec = nsec - 1000000000 }
    else record { tv_sec = sec; tv_nsec = nsec }

-- `fq_condition_timedwait`; `wait` tells of a deadline whether the wait ends before it.
unfoldable pub condition_timedwait : (Timespec → Bool) → Bool → Bool → Timespec → ℕ → Code
condition_timedwait wait false mutex now timeout_ms = Code.failure
condition_timedwait wait true false now timeout_ms = Code.failure
condition_timedwait wait true true now timeout_ms = code_of (wait (deadline now timeout_ms))

-- `fq_condition_wait`; `wait` is what the system does to the condition variable and the mutex.
unfoldable pub condition_wait :
    {H C : Type 0} → (C → H → C × H) → Option C → Option H → Option C × Option H
condition_wait wait none mutex = (none, mutex)
condition_wait wait (some cond) none = (some cond, none)
condition_wait wait (some cond) (some m) = let (cond', m') = wait cond m in (some cond', some m')

module _ {H : Type 0} where
  -- `fq_mutex_destroy` and `fq_condition_destroy`
  unfoldable pub mutex_destroy : (H → H) → Option H → Option H
  mutex_destroy destroy none = none
  mutex_destroy destroy (some m) = some (destroy m)

  unfoldable pub condition_destroy : (H → H) → Option H → Option H
  condition_destroy destroy none = none
  condition_destroy destroy (some cond) = some (destroy cond)

  -- `fq_mutex_init` and `fq_condition_init`; `init` is the native call.
  unfoldable pub mutex_init : (H → Bool × H) → Option H → Code × Option H
  mutex_init init none = (Code.failure, none)
  mutex_init init (some m) = let (ok, m') = init m in (code_of ok, some m')

  unfoldable pub condition_init : (H → Bool × H) → Option H → Code × Option H
  condition_init init none = (Code.failure, none)
  condition_init init (some m) = let (ok, m') = init m in (code_of ok, some m')

  -- `fq_mutex_lock`
  unfoldable pub mutex_lock : (H → H) → Option H → Option H
  mutex_lock lock none = none
  mutex_lock lock (some m) = some (lock m)

  -- `fq_mutex_unlock`
  unfoldable pub mutex_unlock : (H → H) → Option H → Option H
  mutex_unlock unlock none = none
  mutex_unlock unlock (some m) = some (unlock m)

  -- `fq_mutex_trylock`
  unfoldable pub mutex_trylock : (H → Bool × H) → Option H → Code × Option H
  mutex_trylock trylock none = (Code.failure, none)
  mutex_trylock trylock (some m) = let (ok, m') = trylock m in (code_of ok, some m')

  -- `fq_condition_signal` and `fq_condition_broadcast`
  unfoldable pub condition_signal : (H → H) → Option H → Option H
  condition_signal signal none = none
  condition_signal signal (some cond) = some (signal cond)

  unfoldable pub condition_broadcast : (H → H) → Option H → Option H
  condition_broadcast broadcast none = none
  condition_broadcast broadcast (some cond) = some (broadcast cond)
