-- ===== src/Scheduler/Dangling.antt =====
-- What a refused `fq_scheduler_submit_with_future` leaves behind.
use fast_queue.Prelude.{ℕ, ◌≡◌, ◌≢◌, refl, ap, ◌∙◌, true, none, some}
use fast_queue.Types.{Status, Ptr}
use fast_queue.Memory.Allocator.{Allocators, fq_calloc}
use fast_queue.World.Defs.{Task, World, update, load_task, load_future}
use fast_queue.Future
use fast_queue.Future.{sizeof_future, new_future}
use fast_queue.Future.Laws.{bind-some, bind-none, update_self}
use fast_queue.Future.Gone.{create_lem, destroy_pending, without_future}
use fast_queue.Task
use fast_queue.Task.Laws.{load_task_lem}
use fast_queue.Scheduler.Defs.{Scheduler}
use fast_queue.Scheduler.Submit.{submit, submit_future, submit_with_future}
use fast_queue.Scheduler.Accounting.{submit_refuses}

module _ {S : Type 0} (al : Allocators S) where
  set_future_lem :
      (p : ℕ) (t : Task) (o : Ptr) (w : World S)
      → w.tasks p ≡ some t
      → Task.set_future (some p) o w
        ≡ some (tt, record w { tasks = update w.tasks p (some (record t { future = o })) })
  unfolding Task.set_future
  set_future_lem p t o w e = bind-some (load_task p) _ w (load_task_lem p t w e)

  -- The destruction of a task whose future is gone is undefined.
  destroy_dangling :
      (p fp : ℕ) (t : Task) (w : World S)
      → w.tasks p ≡ some t
      → t.future ≡ some fp
      → w.futures fp ≡ none
      → Task.destroy al (some p) w ≡ none
  unfolding Task.destroy Task.cancel_unfulfilled Future.is_ready
  destroy_dangling p fp t w e a gone =
      bind-some (load_task p) _ w (load_task_lem p t w e)
      ∙ bind-none (Task.cancel_unfulfilled al t.future) _ w (
          ap (λ o. Task.cancel_unfulfilled al o w) a
          ∙ bind-none (Future.is_ready (some fp)) _ w
              (bind-none (load_future fp) _ w (rw (gone, load_future) refl)))

  -- `fq_scheduler_submit_with_future` on a scheduler that is shut down, given memory for the future:
  -- the call returns FQ_ERR_CLOSED and has destroyed the future, but the task, which is the caller's
  -- again, still names it, and its destruction reads the future that is gone.
  pub submit_with_future_dangles :
      (s : Scheduler) (p fp n : ℕ) (t : Task) (h : S) (w : World S)
      → s.shutdown_flag ≢ 0
      → w.tasks p ≡ some t
      → fq_calloc al (some s.allocator) 1 sizeof_future w.heap ≡ (some fp, h)
      → (w' : World S) × (submit_with_future al s (some p) true true n w
          ≡ some ((Status.err_closed, none, s, n), w'))
        × (w'.futures fp ≡ none)
        × (w'.tasks p ≡ some (record t { future = some fp }))
        × (Task.destroy al (some p) w' ≡ none)
  unfolding submit_with_future submit_future
  submit_with_future_dangles s p fp n t h w closed e memory =
      let nf = new_future s.allocator in
      let w1 = record w { heap = h; futures = update w.futures fp (some nf) } in
      let w2 = record w1 { tasks = update w.tasks p (some (record t { future = some fp })) } in
      let there = update_self w.tasks p (some (record t { future = some fp })) in
      let gone = update_self (update w2.futures fp _) fp none in
      (
        without_future al fp nf w2,
        bind-some (Future.create al true (some s.allocator) true true) _ w
              (create_lem al (some s.allocator) fp h w memory)
            ∙ bind-some (Task.set_future (some p) (some fp)) _ w1
                (set_future_lem p t (some fp) w1 e)
            ∙ bind-some (submit s (some p) n) _ w2 ((submit_refuses s (some p) n w2 closed).0)
            ∙ bind-some (Future.destroy al (some fp)) _ w2
                (destroy_pending al fp nf w2 (update_self w.futures fp (some nf)) refl refl),
        gone,
        there,
        destroy_dangling p fp (record t { future = some fp }) (without_future al fp nf w2) there
            refl gone,
      )
