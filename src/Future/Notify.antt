-- ===== src/Future/Notify.antt =====
-- Readers and callbacks of a future: what they see, and how often a callback is called.
use fast_queue.Prelude.{
  ℕ, ◌≡◌, refl, sym, ap, ◌∙◌, true, Option, none, some, [], ◌∷◌, ◌++◌, ◌==◌, not, if◌then◌else◌,
  arith, append-nil, ℕ_discrete, Bool-cases, inl, inr,
}
use fast_queue.Types.{Status, Ptr}
use fast_queue.World.Defs.{Future, Event, World, update, ◌>>=◌, ◌>>◌, pure, load_future}
use fast_queue.Future.{set_result, cancel, on_complete, is_ready, future_status}
use fast_queue.Future.Laws.{
  bind-some, put_future-again, completion_events, put_future, fulfilled, update_self,
  set_result_lem, cancel_first, cancel-again,
}

module _ {S : Type 0} where
  -- A fulfilled future is ready and gives its status.
  read_fulfilled :
      (p : ℕ) (f : Future) (w : World S)
      → w.futures p ≡ some f
      → f.ready ≡ 1
      → (is_ready (some p) w ≡ some (true, w)) × (future_status (some p) w ≡ some (f.status, w))
  unfolding is_ready future_status
  read_fulfilled p f w e r =
      (rw (e, ◌>>=◌, load_future) (ground arith), rw (e, ◌>>=◌, load_future) (ground arith))

  -- After `fq_future_set_result` on a future that is there, `fq_future_is_ready` answers true and
  -- `fq_future_status` gives the status that was set, and neither changes anything.
  pub set_result-status :
      (p : ℕ) (f : Future) (st : Status) (w : World S)
      → w.futures p ≡ some f
      → (w' : World S) × (set_result (some p) st w ≡ some (tt, w'))
        × (is_ready (some p) w' ≡ some (true, w'))
        × (future_status (some p) w' ≡ some (st, w'))
  set_result-status p f st w e =
      let w' =
        put_future p (fulfilled f st)
          (Event.woke_waiters p ∷ completion_events f.callback f.callback_data st) w in
      let r = read_fulfilled p (fulfilled f st) w' (update_self w.futures p _) refl in
      (w', set_result_lem p f st w e, r.0, r.1)

  -- On a future that is there, `fq_future_cancel` twice ends as `fq_future_cancel` once: in the same
  -- state, with the same events and status.
  pub cancel-cancel :
      (p : ℕ) (f : Future) (w : World S)
      → w.futures p ≡ some f
      → (cancel (some p) >>= λ _. cancel (some p)) w ≡ cancel (some p) w
  cancel-cancel p f w e = elim (ℕ_discrete f.canceled 0) [
    | yes c ↦
        rw (cancel_first p f w e c, ◌>>=◌)
          (cancel-again p (fulfilled (record f { canceled = 1 }) Status.err_canceled) _
            (update_self w.futures p _) (λ h. omega arith))
    | no c ↦ rw (cancel-again p f w e c, ◌>>=◌) (rw (cancel-again p f w e c) refl)
  ]

  -- What `fq_future_on_complete` does to a future that is there.
  pub on_complete_lem :
      (p fn d : ℕ) (f : Future) (w : World S)
      → w.futures p ≡ some f
      → on_complete (some p) (some fn) d w
        ≡ some (
          Status.ok,
          put_future p
              (record f { callback = some fn; callback_data = d })
              (if not (f.ready == 0) then Event.completed fn d f.status ∷ [] else [])
              w,
        )
  unfolding on_complete
  on_complete_lem p fn d f w e =
      rw (e, ◌>>=◌, load_future)
        (elim (Bool-cases (not (f.ready == 0))) [
          | inl r ↦ rw (r, ◌>>=◌) refl
          | inr r ↦
              rw (r, ◌>>=◌)
                (ap
                  (λ es. some (
                    Status.ok,
                    record w {
                      futures =
                          update w.futures p
                            (some (record f { callback = some fn; callback_data = d }));
                      events = es;
                    },
                  ))
                  (sym (append-nil w.events)))
        ])

  -- On a future that is pending and has no callback, whether a callback is registered before the
  -- future is fulfilled or after: the future ends ready, with the status that was set and the callback,
  -- and the further events are the wake-up of the waiters and one call of the callback, with that
  -- status. All else is as it was.
  pub on_complete-set_result :
      (p fn d : ℕ) (f : Future) (st : Status) (w : World S)
      → w.futures p ≡ some f
      → f.ready ≡ 0
      → f.callback ≡ none
      → let final = record w {
        futures =
            update w.futures p
              (some (record f { status = st; ready = 1; callback = some fn; callback_data = d }));
        events = w.events ++ Event.woke_waiters p ∷ Event.completed fn d st ∷ [];
      } in
        ((on_complete (some p) (some fn) d >>= λ r. set_result (some p) st >> pure r) w
          ≡ some (Status.ok, final))
        × ((set_result (some p) st >> on_complete (some p) (some fn) d) w ≡ some (Status.ok, final))
  on_complete-set_result p fn d f st w e r c = (registered_first, fulfilled_first)
    where
      asked : Future
      asked = record f { callback = some fn; callback_data = d }

      final : Option (Status × World S)
      final = some (
        Status.ok,
        put_future p (fulfilled asked st) (Event.woke_waiters p ∷ Event.completed fn d st ∷ []) w,
      )

      registered : on_complete (some p) (some fn) d w ≡ some (Status.ok, put_future p asked [] w)
      registered =
          on_complete_lem p fn d f w e
          ∙ ap
              (λ (n : ℕ). some (
                Status.ok,
                put_future p asked (if not (n == 0) then Event.completed fn d f.status ∷ [] else [])
                    w,
              ))
              r

      registered_first :
          (on_complete (some p) (some fn) d >>= λ q. set_result (some p) st >> pure q) w ≡ final
      registered_first =
          bind-some (on_complete (some p) (some fn) d) _ w registered
          ∙ bind-some (set_result (some p) st) _ _
              (set_result_lem p asked st (put_future p asked [] w) (update_self w.futures p _))
          ∙ ap (λ v. some (Status.ok, v)) (put_future-again p asked (fulfilled asked st) [] _ w)

      set_first :
          set_result (some p) st w
          ≡ some (tt, put_future p (fulfilled f st) (Event.woke_waiters p ∷ []) w)
      set_first =
          set_result_lem p f st w e
          ∙ ap
              (λ (cb : Ptr). some (
                tt,
                put_future p (fulfilled f st)
                    (Event.woke_waiters p ∷ completion_events cb f.callback_data st) w,
              ))
              c

      fulfilled_first : (set_result (some p) st >> on_complete (some p) (some fn) d) w ≡ final
      fulfilled_first =
          bind-some (set_result (some p) st) _ w set_first
          ∙ on_complete_lem p fn d (fulfilled f st) _ (update_self w.futures p _)
          ∙ ap (λ v. some (Status.ok, v))
              (put_future-again p (fulfilled f st) (fulfilled asked st) (Event.woke_waiters p ∷ [])
                _ w)

  -- A future with a callback that is fulfilled and then cancelled calls the callback twice, with the
  -- status that was set and with FQ_ERR_CANCELED, and forgets the status that was set.
  pub set_result-cancel :
      (p fn : ℕ) (f : Future) (st : Status) (w : World S)
      → w.futures p ≡ some f
      → f.canceled ≡ 0
      → f.callback ≡ some fn
      → (w' : World S) × ((set_result (some p) st >> cancel (some p)) w ≡ some (Status.ok, w'))
        × (w'.events
            ≡ w.events
              ++ (Event.woke_waiters p
                  ∷ Event.completed fn f.callback_data st
                  ∷ Event.woke_waiters p
                  ∷ Event.completed fn f.callback_data Status.err_canceled
                  ∷ []))
        × (future_status (some p) w' ≡ some (Status.err_canceled, w'))
  set_result-cancel p fn f st w e c cb = (
    final,
    bind-some (set_result (some p) st) _ w (set_result_lem p f st w e)
        ∙ cancel_first p (fulfilled f st) _ (update_self w.futures p _) c
        ∙ ap (λ v. some (Status.ok, v)) (put_future-again p (fulfilled f st) gone _ _ w),
    ap
        (λ (k : Ptr).
          w.events
          ++ (Event.woke_waiters p ∷ completion_events k f.callback_data st
              ++ Event.woke_waiters p ∷ completion_events k f.callback_data Status.err_canceled))
        cb,
    (read_fulfilled p gone final (update_self w.futures p _) refl).1,
  )
    where
      gone : Future
      gone = fulfilled (record f { canceled = 1 }) Status.err_canceled

      final : World S
      final =
          put_future p gone
            ((Event.woke_waiters p ∷ completion_events f.callback f.callback_data st)
              ++ (Event.woke_waiters p
                  ∷ completion_events f.callback f.callback_data Status.err_canceled))
            w
