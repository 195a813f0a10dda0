-- ===== src/Platform/Windows.antt =====
-- The Win32 version. A thread's handle is NULL once it was joined or detached.
use fast_queue.Prelude.{ℕ, Bool, true, false, Option, none, some, u32}
use fast_queue.Types.{Ptr}
use fast_queue.Memory.Default.{Libc}
use fast_queue.Platform.Codes.{Code, code_of, sizeof_thread_arg, ThreadArg}

module _ {S : Type 0} (c : Libc S) where
  -- `win32_thread_entry`; the result is an `unsigned`.
  unfoldable pub win32_thread_entry : (ℕ → ℕ → ℕ) → ThreadArg → ℕ → S → ℕ × S
  win32_thread_entry run ta raw s = (u32 (run ta.func ta.arg), c.free raw s)

  abbrev pub after_malloc : Ptr → ℕ → ℕ → Ptr × S → Code × Ptr × Option (ThreadArg × ℕ) × S
  after_malloc begun func arg (none, s) = (Code.failure, none, none, s)
  after_malloc none func arg (some ta, s) = (Code.failure, none, none, c.free ta s)
  after_malloc (some handle) func arg (some ta, s) =
      (Code.success, some handle, some (record { func = func; arg = arg }, ta), s)

  -- `fq_thread_create`; `begun` is the handle that `_beginthreadex` returns. The results are the code, the
  -- thread's handle if it was written, and what the new thread is started with.
  unfoldable pub thread_create : Ptr → Bool → Ptr → ℕ → S → Code × Ptr × Option (ThreadArg × ℕ) × S
  thread_create begun false func arg s = (Code.failure, none, none, s)
  thread_create begun true none arg s = (Code.failure, none, none, s)
  thread_create begun true (some func) arg s =
      after_malloc begun func arg (c.malloc sizeof_thread_arg s)

-- `fq_thread_join` on a thread that is not NULL, by its handle; `waited` is whether the wait ends with
-- WAIT_OBJECT_0, and `code` what `GetExitCodeThread` stores. The results are the code, the handle, and
-- `*exit_code`.
unfoldable pub thread_join : Ptr → Bool → ℕ → Option ℕ → Code × Ptr × Option ℕ
thread_join none waited code old = (Code.failure, none, old)
thread_join (some handle) false code old = (Code.failure, some handle, old)
thread_join (some handle) true code none = (Code.success, none, none)
thread_join (some handle) true code (some old) = (Code.success, none, some code)

-- `fq_thread_detach`
unfoldable pub thread_detach : Ptr → Code × Ptr
thread_detach none = (Code.failure, none)
thread_detach (some handle) = (Code.success, none)

-- `fq_hardware_concurrency`; `n` is `dwNumberOfProcessors`.
unfoldable pub hardware_concurrency : ℕ → ℕ
hardware_concurrency n = u32 n

-- The milliseconds that `fq_thread_sleep_ms` asks for
unfoldable pub sleep_time : ℕ → ℕ
sleep_time ms = u32 ms

-- `fq_condition_timedwait`; `wait` tells of a timeout whether the wait ends before it.
unfoldable pub condition_timedwait : (ℕ → Bool) → Bool → Bool → ℕ → Code
condition_timedwait wait false mutex timeout_ms = Code.failure
condition_timedwait wait true false timeout_ms = Code.failure
condition_timedwait wait true true timeout_ms = code_of (wait (u32 timeout_ms))

-- `fq_condition_wait`; `wait` is what the system does to the mutex.
unfoldable pub condition_wait :
    {H C : Type 0} → (C → H → C × H) → Option C → Option H → Option C × Option H
condition_wait wait none mutex = (none, mutex)
condition_wait wait (some cond) none = (some cond, none)
condition_wait wait (some cond) (some m) = let (cond', m') = wait cond m in (some cond', some m')

module _ {H : Type 0} where
  -- `fq_mutex_init` and `fq_condition_init`
  unfoldable pub mutex_init : (H → H) → Option H → Code × Option H
  mutex_init init none = (Code.failure, none)
  mutex_init init (some m) = (Code.success, some (init m))

  unfoldable pub condition_init : (H → H) → Option H → Code × Option H
  condition_init init none = (Code.failure, none)
  condition_init init (some m) = (Code.success, some (init m))

  -- `fq_mutex_lock`
  unfoldable pub mutex_lock : (H → H) → Option H → Option H
  mutex_lock lock none = none
  mutex_lock lock (some m) = some (lock m)

  -- `fq_mutex_unlock`
  unfoldable pub mutex_unlock : (H → H) → Option H → Option H
  mutex_unlock unlock none = none
  mutex_unlock unlock (some m) = some (unlock m)

  -- `fq_mutex_trylock`
  unfoldable pub mutex_trylock : (H → Bool × H) → Option H → Code × Option H
  mutex_trylock trylock none = (Code.failure, none)
  mutex_trylock trylock (some m) = let (ok, m') = trylock m in (code_of ok, some m')

  -- `fq_mutex_destroy` and `fq_condition_destroy`, which do nothing
  unfoldable pub mutex_destroy : Option H → Option H
  mutex_destroy mutex = mutex

  unfoldable pub condition_destroy : Option H → Option H
  condition_destroy cond = cond

  -- `fq_condition_signal` and `fq_condition_broadcast`
  unfoldable pub condition_signal : (H → H) → Option H → Option H
  condition_signal signal none = none
  condition_signal signal (some cond) = some (signal cond)

  unfoldable pub condition_broadcast : (H → H) → Option H → Option H
  condition_broadcast broadcast none = none
  condition_broadcast broadcast (some cond) = some (broadcast cond)
