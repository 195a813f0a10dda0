-- ===== src/Future.antt =====
-- src/future/future.c and include/fastqueue/future.h: each call run to its end, with the mutex of the
-- future free. A completion callback is an event: it does not call back into the library.
pub mod Laws
pub mod Notify
pub mod Gone
pub mod Spin
pub mod Wait
pub mod Waiting
use fast_queue.Prelude.{
  ℕ, zero, suc, ◌/◌, ◌≡◌, Bool, true, false, Option, none, some, List, [], ◌∷◌, ◌==◌, ltb, not,
  if◌then◌else◌, ◌&&◌,
}
use fast_queue.Types.{Status, Ptr}
use fast_queue.Memory.Allocator.{Allocators, resolve, fq_calloc, fq_free}
use fast_queue.World.Defs.{
  Future, Event, World, M, ◌>>=◌, ◌>>◌, pure, update, load_future, store_future, emit,
}

-- `sizeof(fq_future_t)` on x86-64 Linux
abbrev pub sizeof_future : ℕ
sizeof_future = 136

abbrev pub new_future : ℕ → Future
new_future allocator = record {
  ready = 0;
  canceled = 0;
  status = Status.ok;
  callback = none;
  callback_data = 0;
  allocator = allocator;
}

module _ {S : Type 0} where
  -- `fq_future_is_ready`
  unfoldable pub is_ready : Ptr → M S Bool
  is_ready none = pure false
  is_ready (some p) = do f ← load_future p; pure (not (f.ready == 0))

  -- `fq_future_is_canceled`
  unfoldable pub is_canceled : Ptr → M S Bool
  is_canceled none = pure false
  is_canceled (some p) = do f ← load_future p; pure (not (f.canceled == 0))

  -- `fq_future_status`; the result is the function's return value
  unfoldable pub future_status : Ptr → M S Status
  future_status none = pure Status.err_inval
  future_status (some p) = do
    f ← load_future p
    pure (if not (f.ready == 0) then f.status else Status.err_busy)

  -- `if (cb) cb(cb_data, status);`
  unfoldable pub complete : Ptr → ℕ → Status → M S (Unit {0})
  complete none user_data status = pure tt
  complete (some fn) user_data status = emit (Event.completed fn user_data status)

  -- `fq_future_set_result`
  unfoldable pub set_result : Ptr → Status → M S (Unit {0})
  set_result none status = pure tt
  set_result (some p) status = do
    f ← load_future p
    store_future p (record f { status = status; ready = 1 })
    emit (Event.woke_waiters p)
    complete f.callback f.callback_data status

  -- `fq_future_cancel`
  unfoldable pub cancel : Ptr → M S Status
  cancel none = pure Status.err_inval
  cancel (some p) = do
    f ← load_future p
    if not (f.canceled == 0) then pure Status.ok else (do
      store_future p (record f { canceled = 1 })
      set_result (some p) Status.err_canceled
      pure Status.ok)

  -- `fq_future_on_complete`
  unfoldable pub on_complete : Ptr → Ptr → ℕ → M S Status
  on_complete none callback user_data = pure Status.err_inval
  on_complete (some p) none user_data = pure Status.err_inval
  on_complete (some p) (some fn) user_data = do
    f ← load_future p
    store_future p (record f { callback = some fn; callback_data = user_data })
    if not (f.ready == 0)
        then (do emit (Event.completed fn user_data f.status); pure Status.ok)
        else pure Status.ok

  module _ (al : Allocators S) where
    abbrev pub free_block : ℕ → Ptr → M S (Unit {0})
    free_block allocator p w = some (tt, record w { heap = fq_free al (some allocator) p w.heap })

    -- `fq_calloc` through the state
    abbrev pub alloc_block : ℕ → ℕ → ℕ → M S Ptr
    alloc_block allocator count size w =
        let (p, s) = fq_calloc al (some allocator) count size w.heap in
        some (p, record w { heap = s })

    -- `fq_future_create` on an out pointer that is not NULL, after `fq_calloc` gave `p`;
    -- `mutex_ok` and `cond_ok` are whether the initialisations succeed.
    unfoldable pub create_at : Ptr → Bool → Bool → ℕ → M S (Status × Ptr)
    create_at none mutex_ok cond_ok allocator = pure (Status.err_nomem, none)
    create_at (some p) mutex_ok cond_ok allocator =
        if not mutex_ok
        then (do free_block allocator (some p); pure (Status.err_internal, none))
        else if not cond_ok
        then (do free_block allocator (some p); pure (Status.err_internal, none))
        else (do store_future p (new_future allocator); pure (Status.ok, some p))

    -- `fq_future_create`; `given` is whether the out pointer is not NULL, and the pointer of the
    -- result is what goes through it.
    unfoldable pub create : Bool → Ptr → Bool → Bool → M S (Status × Ptr)
    create given allocator mutex_ok cond_ok =
        if not given then pure (Status.err_inval, none) else (do
          p ← alloc_block (resolve allocator) 1 sizeof_future
          create_at p mutex_ok cond_ok (resolve allocator))

    -- `fq_free` of a future: no access to it is defined from then on.
    abbrev pub free_future : ℕ → ℕ → M S (Unit {0})
    free_future allocator p w = some (
      tt,
      record w {
        heap = fq_free al (some allocator) (some p) w.heap;
        futures = update w.futures p none;
      },
    )

    -- `fq_future_destroy`
    unfoldable pub destroy : Ptr → M S (Unit {0})
    destroy none = pure tt
    destroy (some p) = do
      ready ← is_ready (some p)
      (if not ready then (do st ← cancel (some p); pure tt) else pure tt)
      f ← load_future p
      free_future f.allocator p
