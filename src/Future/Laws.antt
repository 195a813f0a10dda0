-- ===== src/Future/Laws.antt =====
-- What the calls of future.c do to a future that is there.
use fast_queue.Prelude.{
  ℕ, ◌≡◌, ◌≢◌, refl, sym, ap, ap₂, ◌∙◌, Option, none, some, List, [], ◌∷◌, ◌++◌, append_assoc, ◌==◌,
  not, arith, fun_ext, append-nil,
}
use fast_queue.Types.{Status, Ptr}
use fast_queue.World.Defs.{Future, Event, World, M, update, ◌>>=◌, ◌>>◌, load_future}
use fast_queue.Future.{set_result, complete, cancel, is_ready}

-- The event of a completion callback, if there is one.
abbrev pub completion_events : Ptr → ℕ → Status → List Event
completion_events none user_data status = []
completion_events (some fn) user_data status = Event.completed fn user_data status ∷ []

-- The world with the future `f` at `p` and further events.
abbrev pub put_future : {S : Type 0} → ℕ → Future → List Event → World S → World S
put_future p f es w = record w { futures = update w.futures p (some f); events = w.events ++ es }

abbrev pub fulfilled : Future → Status → Future
fulfilled f status = record f { status = status; ready = 1 }

pub update_self {ℓ} : {A : Type ℓ} (g : ℕ → A) (p : ℕ) (v : A) → update g p v p ≡ v
update_self g p v = ground arith

pub update-update {ℓ} :
    {A : Type ℓ} (g : ℕ → A) (p : ℕ) (u v : A) → update (update g p u) p v ≡ update g p v
update-update g p u v = fun_ext λ q. ground arith

-- A result that is there is passed on.
pub bind-some :
    {S A B : Type 0} (m : M S A) (k : A → M S B) (w : World S) {a : A} {w' : World S}
    → m w ≡ some (a, w')
    → (m >>= k) w ≡ k a w'
bind-some m k w e = rw (e, ◌>>=◌) refl

-- What is undefined stays so.
pub bind-none :
    {S A B : Type 0} (m : M S A) (k : A → M S B) (w : World S) → m w ≡ none → (m >>= k) w ≡ none
bind-none m k w e = rw (e, ◌>>=◌) refl

none-ne-some : {C : Type 0} {c : C} → none ≡ some c → ⊥
none-ne-some h = cc

-- The end of a chain, from its first step
pub bind-inv :
    {S A B : Type 0} (m : M S A) (f : A → M S B) (w : World S) {b : B} {w' : World S}
    → (m >>= f) w ≡ some (b, w')
    → (a : A) × (u : World S) × (m w ≡ some (a, u)) × (f a u ≡ some (b, w'))
bind-inv {S} {A} {B} m f w {b} {w'} e = cases (m w) refl
  where
    cases :
        (o : Option (A × World S))
        → m w ≡ o
        → (a : A) × (u : World S) × (m w ≡ some (a, u)) × (f a u ≡ some (b, w'))
    cases none g = absurd (none-ne-some (sym (bind-none m f w g) ∙ e))
    cases (some (a, u)) g = (a, u, g, sym (bind-some m f w g) ∙ e)

pub put_future-again :
    {S : Type 0} (p : ℕ) (f g : Future) (es fs : List Event) (w : World S)
    → put_future p g fs (put_future p f es w) ≡ put_future p g (es ++ fs) w
put_future-again p f g es fs w =
    ap₂ (λ m l. record w { futures = m; events = l }) (update-update w.futures p (some f) (some g))
      (append_assoc w.events es fs)

module _ {S : Type 0} where
  pub complete_lem :
      (cb : Ptr) (d : ℕ) (st : Status) (w : World S)
      → complete cb d st w ≡ some (tt, record w { events = w.events ++ completion_events cb d st })
  unfolding complete
  complete_lem none d st w =
      ap (λ es. some (tt, record w { events = es })) (sym (append-nil w.events))
  complete_lem (some fn) d st w = refl

  pub set_result_lem :
      (p : ℕ) (f : Future) (st : Status) (w : World S)
      → w.futures p ≡ some f
      → set_result (some p) st w
        ≡ some (
          tt,
          put_future p
              (fulfilled f st)
              (Event.woke_waiters p ∷ completion_events f.callback f.callback_data st)
              w,
        )
  unfolding set_result
  set_result_lem p f st w e =
      rw (e, ◌>>=◌, load_future)
        (complete_lem f.callback f.callback_data st _
          ∙ ap
              (λ es. some (
                tt,
                record w { futures = update w.futures p (some (fulfilled f st)); events = es },
              ))
              (append_assoc w.events (Event.woke_waiters p ∷ [])
                (completion_events f.callback f.callback_data st)))

  -- A second cancellation does nothing.
  pub cancel-again :
      (p : ℕ) (f : Future) (w : World S)
      → w.futures p ≡ some f
      → f.canceled ≢ 0
      → cancel (some p) w ≡ some (Status.ok, w)
  unfolding cancel
  cancel-again p f w e c = rw (e, ◌>>=◌, load_future) (ground arith)

  -- The first cancellation fulfils the future with FQ_ERR_CANCELED, whatever it held.
  pub cancel_first :
      (p : ℕ) (f : Future) (w : World S)
      → w.futures p ≡ some f
      → f.canceled ≡ 0
      → cancel (some p) w
        ≡ some (
          Status.ok,
          put_future p
              (fulfilled (record f { canceled = 1 }) Status.err_canceled)
              (Event.woke_waiters p
                ∷ completion_events f.callback f.callback_data Status.err_canceled)
              w,
        )
  unfolding cancel
  cancel_first p f w e c =
      rw (e, ◌>>=◌, load_future, c)
        (rw
          (
            set_result_lem p (record f { canceled = 1 }) Status.err_canceled
                (record w { futures = update w.futures p (some (record f { canceled = 1 })) })
                (update_self w.futures p _),
            ◌>>=◌,
            ◌>>◌,
          )
          (rw (update-update w.futures p (some (record f { canceled = 1 }))) refl))

  pub is_ready_lem :
      (p : ℕ) (f : Future) (w : World S)
      → w.futures p ≡ some f
      → is_ready (some p) w ≡ some (not (f.ready == 0), w)
  unfolding is_ready
  is_ready_lem p f w e = rw (e, ◌>>=◌, load_future) refl
