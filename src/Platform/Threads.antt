-- ===== src/Platform/Threads.antt =====
-- What a thread returns and what its creation takes, over both systems.
use fast_queue.Prelude.{
  ℕ, ◌^◌, ◌<◌, ◌≡◌, refl, Bool, true, false, Option, none, some, List, ◌∷◌, arith,
}
use fast_queue.Types.{Ptr}
use fast_queue.Memory.Default.{Libc}
use fast_queue.Platform.Codes.{Code, ThreadArg}
use fast_queue.Platform.Posix
use fast_queue.Platform.Posix.{posix_thread_entry, ptr_of_int, int_of_ptr}
use fast_queue.Platform.Windows
use fast_queue.Platform.Windows.{win32_thread_entry}

-- The `int` that a thread's function returns is the exit code that the join of the thread stores, over
-- POSIX, where it passes through a pointer, and over Win32, where it passes through an `unsigned`.
pub join_exit_code :
    {S : Type 0} (c : Libc S) (run : ℕ → ℕ → ℕ) (ta : ThreadArg) (raw handle old : ℕ) (s : S)
    → run ta.func ta.arg < 2 ^ 32
    → (Posix.thread_join true true (posix_thread_entry c run ta raw s).0 (some old)
        ≡ (Code.success, some (run ta.func ta.arg)))
      × (Windows.thread_join (some handle) true (win32_thread_entry c run ta raw s).0 (some old)
          ≡ (Code.success, none, some (run ta.func ta.arg)))
unfolding Posix.thread_join Windows.thread_join posix_thread_entry win32_thread_entry ptr_of_int
    int_of_ptr
join_exit_code c run ta raw handle old s h = (ground arith, ground arith)

-- What is relied on of the C library: a block that `malloc` gave is live, and `free` of the newest live
-- block takes it away.
pub record LibcLaws {S : Type 0} (c : Libc S) (live : S → List ℕ) : Type 0 where
  pub malloc_some : (n p : ℕ) (s s' : S) → c.malloc n s ≡ (some p, s') → live s' ≡ p ∷ live s
  pub malloc_none : (n : ℕ) (s s' : S) → c.malloc n s ≡ (none, s') → live s' ≡ live s
  pub free_newest : (p : ℕ) (s : S) (l : List ℕ) → live s ≡ p ∷ l → live (c.free p s) ≡ l

module _ {S : Type 0} (c : Libc S) (live : S → List ℕ) (laws : LibcLaws c live) (run : ℕ → ℕ → ℕ)
    (func arg : ℕ) where
  -- A creation that fails leaves no block; one that succeeds starts the thread with the function and the
  -- argument that it was given, and once the thread has entered no block is left either.
  abbrev pub Clean : S → Code × Option (ThreadArg × ℕ) × S → Type 0
  Clean s (Code.failure, given, s') = (given ≡ none) × (live s' ≡ live s)
  Clean s (Code.success, none, s') = ⊥
  Clean s (Code.success, some (ta, raw), s') =
      (ta.func ≡ func) × (ta.arg ≡ arg) × (live (posix_thread_entry c run ta raw s').1 ≡ live s)

  after_malloc-Clean :
      (created : Bool) (s : S) (r : Ptr × S)
      → c.malloc 16 s ≡ r
      → Clean s (Posix.after_malloc c created func arg r)
  unfolding posix_thread_entry
  after_malloc-Clean created s (none, s') e = (refl, laws.malloc_none 16 s s' e)
  after_malloc-Clean true s (some ta, s') e =
      (refl, refl, laws.free_newest ta s' (live s) (laws.malloc_some 16 ta s s' e))
  after_malloc-Clean false s (some ta, s') e =
      (refl, laws.free_newest ta s' (live s) (laws.malloc_some 16 ta s s' e))

  -- `fq_thread_create` over POSIX, whether or not there is memory and `pthread_create` succeeds: if it
  -- fails no block is left; if it succeeds the thread has the function and the argument that were given,
  -- and its entry frees the block that carried them.
  pub thread_create-Clean :
      (created : Bool) (s : S) → Clean s (Posix.thread_create c created true (some func) arg s)
  unfolding Posix.thread_create
  thread_create-Clean created s = after_malloc-Clean created s (c.malloc 16 s) refl
