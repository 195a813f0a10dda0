-- ===== src/Task/Cancel.antt =====
-- Cancelling a task before and after its run, and destroying it.
use fast_queue.Prelude.{
  ℕ, ◌≡◌, ◌≢◌, ap, ◌∙◌, true, false, none, some, List, ◌∷◌, ◌++◌, append_assoc, ◌==◌, not,
  if◌then◌else◌, arith, ℕ_discrete,
}
use fast_queue.Types.{Status, Ptr}
use fast_queue.Memory.Allocator.{Allocators, fq_free}
use fast_queue.World.Defs.{
  Task, Future, Event, World, update, ◌>>=◌, ◌>>◌, pure, load_task, store_task,
}
use fast_queue.Future
use fast_queue.Future.Laws.{
  bind-some, completion_events, put_future, fulfilled, is_ready_lem, update_self, cancel_first,
}
use fast_queue.Task.{is_executed, execute, cancel, cancel_future, cancel_unfulfilled, destroy}
use fast_queue.Task.Laws.{is_executed_lem, load_task_lem, execute_lem, after_run}

abbrev pub marked_canceled : Task → Task
marked_canceled t = record t { canceled = 1 }

abbrev pub canceled_future : Future → Future
canceled_future f = fulfilled (record f { canceled = 1 }) Status.err_canceled

-- The events of the first cancellation of a future.
abbrev pub cancel_events : ℕ → Future → List Event
cancel_events fp f =
    Event.woke_waiters fp ∷ completion_events f.callback f.callback_data Status.err_canceled

not-zero : (n : ℕ) → n ≢ 0 → not (n == 0) ≡ true
not-zero n h = ground arith

module _ {S : Type 0} where
  -- `fq_task_cancel` refuses a task that has run, and changes nothing.
  pub cancel_executed :
      (p : ℕ) (t : Task) (w : World S)
      → w.tasks p ≡ some t
      → t.executed ≢ 0
      → cancel (some p) w ≡ some (Status.err_busy, w)
  unfolding cancel
  cancel_executed p t w e x =
      bind-some (is_executed (some p)) _ w
        (is_executed_lem p t w e ∙ ap (λ b. some (b, w)) (not-zero t.executed x))

  -- The first cancellation of a task that has not run, with a future that nobody cancelled, marks the
  -- task and cancels the future.
  pub cancel_pending :
      (p : ℕ) (t : Task) (fp : ℕ) (f : Future) (w : World S)
      → w.tasks p ≡ some t
      → t.executed ≡ 0
      → t.canceled ≡ 0
      → t.future ≡ some fp
      → w.futures fp ≡ some f
      → f.canceled ≡ 0
      → cancel (some p) w
        ≡ some (
          Status.ok,
          record w {
            tasks = update w.tasks p (some (marked_canceled t));
            futures = update w.futures fp (some (canceled_future f));
            events = w.events ++ cancel_events fp f;
          },
        )
  unfolding cancel cancel_future
  cancel_pending p t fp f w e x c a ef fc =
      bind-some (is_executed (some p)) _ w
        (is_executed_lem p t w e ∙ ap (λ (n : ℕ). some (not (n == 0), w)) x)
      ∙ bind-some (load_task p) _ w (load_task_lem p t w e)
      ∙ ap
          (λ (n : ℕ).
            (if not (n == 0)
                then pure Status.ok
                else (store_task p (marked_canceled t)
                    >> (cancel_future t.future >> pure Status.ok)))
              w)
          c
      ∙ ap (λ (q : Ptr). (cancel_future q >> pure Status.ok) marked) a
      ∙ bind-some (cancel_future (some fp)) (λ _. pure Status.ok) marked
          (bind-some (Future.cancel (some fp)) (λ _. pure tt) marked
            (cancel_first fp f marked ef fc))
    where
      marked : World S
      marked = record w { tasks = update w.tasks p (some (marked_canceled t)) }

  -- A task that is cancelled before its run is never called: its run calls only the completion
  -- callbacks, with FQ_ERR_CANCELED. The future's callback has by then been called by the
  -- cancellation, and is called a second time by the run.
  pub cancel-execute :
      (p : ℕ) (t : Task) (fp : ℕ) (f : Future) (w : World S)
      → w.tasks p ≡ some t
      → t.executed ≡ 0
      → t.canceled ≡ 0
      → t.future ≡ some fp
      → w.futures fp ≡ some f
      → f.canceled ≡ 0
      → (w' : World S) × ((cancel (some p) >>= λ st. execute (some p)) w ≡ some (tt, w'))
        × (w'.events
            ≡ w.events
              ++ (cancel_events fp f
                  ++ (cancel_events fp f
                      ++ completion_events t.completion t.completion_data Status.err_canceled)))
        × (w'.futures fp ≡ some (canceled_future f))
  cancel-execute p t fp f w e x c a ef fc = (
    after_run p (marked_canceled t) fp (canceled_future f) true canceled_world,
    bind-some (cancel (some p)) _ w (cancel_pending p t fp f w e x c a ef fc)
        ∙ execute_lem p (marked_canceled t) fp (canceled_future f) canceled_world
            (update_self w.tasks p _) a (update_self w.futures fp _),
    append_assoc w.events (cancel_events fp f) _,
    update_self (update w.futures fp (some (canceled_future f))) fp _,
  )
    where
      canceled_world : World S
      canceled_world = record w {
        tasks = update w.tasks p (some (marked_canceled t));
        futures = update w.futures fp (some (canceled_future f));
        events = w.events ++ cancel_events fp f;
      }

module _ {S : Type 0} (al : Allocators S) where
  pub unfulfilled_pending :
      (fp : ℕ) (f : Future) (w : World S)
      → w.futures fp ≡ some f
      → f.canceled ≡ 0
      → f.ready ≡ 0
      → cancel_unfulfilled al (some fp) w
        ≡ some (tt, put_future fp (canceled_future f) (cancel_events fp f) w)
  unfolding cancel_unfulfilled
  unfulfilled_pending fp f w ef fc r =
      bind-some (Future.is_ready (some fp)) _ w
        (is_ready_lem fp f w ef ∙ ap (λ (n : ℕ). some (not (n == 0), w)) r)
      ∙ bind-some (Future.cancel (some fp)) _ w (cancel_first fp f w ef fc)

  pub unfulfilled_done :
      (fp : ℕ) (f : Future) (w : World S)
      → w.futures fp ≡ some f
      → f.ready ≢ 0
      → cancel_unfulfilled al (some fp) w ≡ some (tt, w)
  unfolding cancel_unfulfilled
  unfulfilled_done fp f w ef r =
      bind-some (Future.is_ready (some fp)) _ w
        (is_ready_lem fp f w ef ∙ ap (λ b. some (b, w)) (not-zero f.ready r))

  -- What freeing the task leaves of the world.
  abbrev pub without_task : ℕ → Task → World S → World S
  without_task p t w = record w {
    heap = fq_free al (some t.allocator) (some p) w.heap;
    tasks = update w.tasks p none;
  }

  pub destroy_done :
      (p : ℕ) (t : Task) (fp : ℕ) (f : Future) (w : World S)
      → w.tasks p ≡ some t
      → t.future ≡ some fp
      → w.futures fp ≡ some f
      → f.ready ≢ 0
      → destroy al (some p) w ≡ some (tt, without_task p t w)
  unfolding destroy
  destroy_done p t fp f w e a ef r =
      bind-some (load_task p) _ w (load_task_lem p t w e)
      ∙ bind-some (cancel_unfulfilled al t.future) _ w
          (ap (λ (q : Ptr). cancel_unfulfilled al q w) a ∙ unfulfilled_done fp f w ef r)

  destroy_pending :
      (p : ℕ) (t : Task) (fp : ℕ) (f : Future) (w : World S)
      → w.tasks p ≡ some t
      → t.future ≡ some fp
      → w.futures fp ≡ some f
      → f.canceled ≡ 0
      → f.ready ≡ 0
      → destroy al (some p) w
        ≡ some (tt, without_task p t (put_future fp (canceled_future f) (cancel_events fp f) w))
  unfolding destroy
  destroy_pending p t fp f w e a ef fc r =
      bind-some (load_task p) _ w (load_task_lem p t w e)
      ∙ bind-some (cancel_unfulfilled al t.future) _ w
          (ap (λ (q : Ptr). cancel_unfulfilled al q w) a ∙ unfulfilled_pending fp f w ef fc r)

  -- `fq_task_destroy` on a task with a future that nobody cancelled, both there: if the future is not
  -- fulfilled it is cancelled, so that its waiters wake and its callback is called, and otherwise it
  -- is left alone. Then the task is gone, and its block is freed through the allocator that it came
  -- from.
  pub destroy_lem :
      (p : ℕ) (t : Task) (fp : ℕ) (f : Future) (w : World S)
      → w.tasks p ≡ some t
      → t.future ≡ some fp
      → w.futures fp ≡ some f
      → f.canceled ≡ 0
      → destroy al (some p) w
        ≡ some (
          tt,
          without_task p t (
              if f.ready == 0 then put_future fp (canceled_future f) (cancel_events fp f) w else w),
        )
  destroy_lem p t fp f w e a ef fc = elim (ℕ_discrete f.ready 0) [
    | yes r ↦ rw (test-true f.ready r) (destroy_pending p t fp f w e a ef fc r)
    | no r ↦ rw (test-false f.ready r) (destroy_done p t fp f w e a ef r)
  ]
    where
      test-true : (n : ℕ) → n ≡ 0 → (n == 0) ≡ true
      test-true n h = ground arith

      test-false : (n : ℕ) → n ≢ 0 → (n == 0) ≡ false
      test-false n h = ground arith
