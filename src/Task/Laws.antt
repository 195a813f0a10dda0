-- ===== src/Task/Laws.antt =====
-- What running, cancelling and destroying a task do to it and to its future.
use fast_queue.Prelude.{
  ℕ, ◌≡◌, refl, ap, ◌∙◌, Bool, true, false, some, List, [], ◌∷◌, ◌++◌, append_assoc, ◌==◌, not,
  if◌then◌else◌,
}
use fast_queue.Types.{Status, Ptr}
use fast_queue.World.Defs.{
  Task, Future, Event, World, update, ◌>>=◌, ◌>>◌, pure, load_task, emit, store_task,
}
use fast_queue.Future.{set_result, complete}
use fast_queue.Future.Laws.{
  bind-some, completion_events, put_future, fulfilled, set_result_lem, complete_lem,
}
use fast_queue.Task.{outcome, is_canceled, is_executed, execute}

abbrev pub marked_executed : Task → Task
marked_executed t = record t { executed = 1 }

-- What a run reports: FQ_ERR_CANCELED for a task that was cancelled, and FQ_OK for one that was called.
abbrev pub reported : Bool → Status
reported true = Status.err_canceled
reported false = Status.ok

-- The events of a run: the callback unless the task was cancelled, the wake-up of the future's
-- waiters, the future's completion callback and the task's.
abbrev pub run_events : Task → ℕ → Future → Bool → List Event
run_events t fp f was_canceled =
    (if not was_canceled then Event.called t.callback t.user_data ∷ [] else [])
    ++ (Event.woke_waiters fp ∷ completion_events f.callback f.callback_data (reported was_canceled)
        ++ completion_events t.completion t.completion_data (reported was_canceled))

-- The world after a run.
abbrev pub after_run : {S : Type 0} → ℕ → Task → ℕ → Future → Bool → World S → World S
after_run p t fp f was_canceled w = record w {
  tasks = update w.tasks p (some (marked_executed t));
  futures = update w.futures fp (some (fulfilled f (reported was_canceled)));
  events = w.events ++ run_events t fp f was_canceled;
}

module _ {S : Type 0} where
  is_canceled_lem :
      (p : ℕ) (t : Task) (w : World S)
      → w.tasks p ≡ some t
      → is_canceled (some p) w ≡ some (not (t.canceled == 0), w)
  unfolding is_canceled
  is_canceled_lem p t w e = rw (e, ◌>>=◌, load_task) refl

  pub is_executed_lem :
      (p : ℕ) (t : Task) (w : World S)
      → w.tasks p ≡ some t
      → is_executed (some p) w ≡ some (not (t.executed == 0), w)
  unfolding is_executed
  is_executed_lem p t w e = rw (e, ◌>>=◌, load_task) refl

  pub load_task_lem :
      (p : ℕ) (t : Task) (w : World S) → w.tasks p ≡ some t → load_task p w ≡ some (t, w)
  load_task_lem p t w e = rw (e, load_task) refl

  -- The end of a run, from `es` on: the future and the completion callback.
  notify :
      (t : Task) (fp : ℕ) (f : Future) (st : Status) (w : World S)
      → t.future ≡ some fp
      → w.futures fp ≡ some f
      → (set_result t.future st >> complete t.completion t.completion_data st) w
        ≡ some (
          tt,
          put_future fp
              (fulfilled f st)
              (Event.woke_waiters fp ∷ completion_events f.callback f.callback_data st
                ++ completion_events t.completion t.completion_data st)
              w,
        )
  notify t fp f st w a e =
      bind-some (set_result t.future st) _ w
        (ap (λ (q : Ptr). set_result q st w) a ∙ set_result_lem fp f st w e)
      ∙ complete_lem t.completion t.completion_data st _
      ∙ ap
          (λ es.
            some
              (tt, record w { futures = update w.futures fp (some (fulfilled f st)); events = es }))
          (append_assoc w.events
            (Event.woke_waiters fp ∷ completion_events f.callback f.callback_data st)
            (completion_events t.completion t.completion_data st))

  -- `fq_task_execute` on a task with a future, both there: the callback is called unless the task was
  -- cancelled, the task is marked executed, and the future and the completion callback get FQ_OK, or
  -- FQ_ERR_CANCELED for a task that was cancelled.
  pub execute_lem :
      (p : ℕ) (t : Task) (fp : ℕ) (f : Future) (w : World S)
      → w.tasks p ≡ some t
      → t.future ≡ some fp
      → w.futures fp ≡ some f
      → execute (some p) w ≡ some (tt, after_run p t fp f (not (t.canceled == 0)) w)
  unfolding execute
  execute_lem p t fp f w e a ef =
      bind-some (is_canceled (some p)) _ w (is_canceled_lem p t w e)
      ∙ bind-some (load_task p) _ w (load_task_lem p t w e)
      ∙ finish (not (t.canceled == 0))
    where
      finish :
          (b : Bool)
          → ((if not b then emit (Event.called t.callback t.user_data) else pure tt)
                >> (store_task p (marked_executed t)
                    >> (set_result t.future (outcome b)
                        >> complete t.completion t.completion_data (outcome b))))
              w
            ≡ some (tt, after_run p t fp f b w)
      finish true =
          notify t fp f Status.err_canceled
            (record w { tasks = update w.tasks p (some (marked_executed t)) }) a ef
      finish false =
          notify t fp f Status.ok
            (record w {
              tasks = update w.tasks p (some (marked_executed t));
              events = w.events ++ Event.called t.callback t.user_data ∷ [];
            })
            a ef
          ∙ ap
              (λ es. some (
                tt,
                record w {
                  tasks = update w.tasks p (some (marked_executed t));
                  futures = update w.futures fp (some (fulfilled f Status.ok));
                  events = es;
                },
              ))
              (append_assoc w.events (Event.called t.callback t.user_data ∷ []) _)
