-- ===== src/Future/Gone.antt =====
-- `fq_future_create` and `fq_future_destroy` on a future that is not fulfilled.
use fast_queue.Prelude.{ℕ, ◌≡◌, refl, ap, ◌∙◌, true, none, some, ◌∷◌, ◌++◌, ◌==◌, not}
use fast_queue.Types.{Status, Ptr}
use fast_queue.Memory.Allocator.{Allocators, resolve, fq_calloc, fq_free}
use fast_queue.World.Defs.{Future, Event, World, update, ◌>>=◌, pure, load_future}
use fast_queue.Future.{sizeof_future, new_future, create_at, create, cancel, is_ready, destroy}
use fast_queue.Future.Laws.{
  bind-some, completion_events, put_future, fulfilled, is_ready_lem, cancel_first, update_self,
}

pub load_future_lem :
    {S : Type 0} (p : ℕ) (f : Future) (w : World S)
    → w.futures p ≡ some f
    → load_future p w ≡ some (f, w)
load_future_lem p f w e = rw (e, load_future) refl

module _ {S : Type 0} (al : Allocators S) where
  -- The world after the destruction of the future `f` at `p`
  abbrev pub without_future : ℕ → Future → World S → World S
  without_future p f w = record w {
    heap = fq_free al (some f.allocator) (some p) w.heap;
    futures =
        update
          (update w.futures p (some (fulfilled (record f { canceled = 1 }) Status.err_canceled))) p
          none;
    events =
        w.events
        ++ (Event.woke_waiters p
            ∷ completion_events f.callback f.callback_data Status.err_canceled);
  }

  pub destroy_pending :
      (p : ℕ) (f : Future) (w : World S)
      → w.futures p ≡ some f
      → f.ready ≡ 0
      → f.canceled ≡ 0
      → destroy al (some p) w ≡ some (tt, without_future p f w)
  unfolding destroy
  destroy_pending p f w e r c =
      bind-some (is_ready (some p)) _ w
        (is_ready_lem p f w e ∙ ap (λ (n : ℕ). some (not (n == 0), w)) r)
      ∙ bind-some (cancel (some p) >>= λ st. pure tt) _ w
          (bind-some (cancel (some p)) _ w (cancel_first p f w e c))
      ∙ bind-some (load_future p) _ canceled
          (load_future_lem p _ canceled (update_self w.futures p _))
    where
      canceled : World S
      canceled =
          put_future p (fulfilled (record f { canceled = 1 }) Status.err_canceled)
            (Event.woke_waiters p
              ∷ completion_events f.callback f.callback_data Status.err_canceled)
            w

  pub create_lem :
      (allocator : Ptr) (p : ℕ) (h : S) (w : World S)
      → fq_calloc al (some (resolve allocator)) 1 sizeof_future w.heap ≡ (some p, h)
      → create al true allocator true true w
        ≡ some (
          (Status.ok, some p),
          record w {
            heap = h;
            futures = update w.futures p (some (new_future (resolve allocator)));
          },
        )
  unfolding create create_at
  create_lem allocator p h w e =
      ap (λ x. create_at al x.0 true true (resolve allocator) (record w { heap = x.1 })) e
