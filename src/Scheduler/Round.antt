-- ===== src/Scheduler/Round.antt =====
-- A whole round of `worker_main`, from the search to the end of the task.
use fast_queue.Prelude.{
  ℕ, ◌+◌, ◌^◌, ◌<◌, ◌≡◌, refl, sym, ap, ap₂, subst, ◌∙◌, Bool, true, false, Option, some, List,
  arith, length, get_elem?, ◌==◌, not, u32,
}
use fast_queue.Memory.Allocator.{Allocators}
use fast_queue.World.Defs.{Task, Future, World, Event}
use fast_queue.Queue.Refine.{Holds}
use fast_queue.Future.Laws.{bind-some}
use fast_queue.Task.Laws.{run_events}
use fast_queue.Scheduler.Defs.{Worker, Scheduler, load_worker}
use fast_queue.Scheduler.Worker.{Surroundings, may_exit, find_task, run_round, worker_round}
use fast_queue.Scheduler.Run.{Ran, run_round-Ran, run_round-queues}
use fast_queue.Scheduler.Views.{View, EachHolds, worker_there}
use fast_queue.Scheduler.Search.{Lists, search_lists, look_order, free_in, is_some}
use fast_queue.Scheduler.Steal.{Requeued}
use fast_queue.Scheduler.Find.{find_task_lem}

-- The counters of a run after a search are those of the scheduler before it.
Ran-Requeued :
    {S : Type 0} {s t u : Scheduler} {p : ℕ} {es : List Event} {w w' : World S}
    → Requeued s t
    → Ran t u p es w w'
    → Ran s u p es w w'
Ran-Requeued {s} {t} k r = record {
  pending_less = r.pending_less ∙ field (λ x. x.tasks_pending);
  completed_more = r.completed_more ∙ ap (λ (n : ℕ). u32 (n + 1)) (field (λ x. x.tasks_completed));
  active_kept = r.active_kept ∙ field (λ x. x.tasks_active);
  submitted_kept = r.submitted_kept ∙ field (λ x. x.tasks_submitted);
  canceled_kept = r.canceled_kept ∙ field (λ x. x.tasks_canceled);
  seen = r.seen;
  gone = r.gone;
}
  where
    field :
        (g : Scheduler → ℕ)
        → g t ≡ g (record s { workers = t.workers; global_queue = t.global_queue })
    field g = ap g k.rest_same

open_stays : (s : Scheduler) (k : Worker) → s.shutdown_flag ≡ 0 → may_exit s k ≡ false
unfolding may_exit
open_stays s k h = ground arith

pub load_worker_lem :
    {S : Type 0} (s : Scheduler) (i : ℕ) (k : Worker) (w : World S)
    → get_elem? s.workers i ≡ some k
    → load_worker s i w ≡ some (k, w)
load_worker_lem s i k w e = rw (e, load_worker) refl

round_lem :
    {S : Type 0} (al : Allocators S) (e : Surroundings) (id backoff : ℕ) (s s1 s' : Scheduler)
    (k : Worker) (p : ℕ) (w w' : World S)
    → get_elem? s.workers id ≡ some k
    → may_exit s k ≡ false
    → find_task e id s w ≡ some ((true, some p, s1), w)
    → run_round al e p s1 w ≡ some ((s', 0), w')
    → worker_round al e id s backoff w ≡ some ((false, s', 0), w')
unfolding worker_round
round_lem al e id backoff s s1 s' k p w w' there stays finds runs =
    bind-some (load_worker s id) _ w (load_worker_lem s id k w there)
    ∙ (rw stays (bind-some (find_task e id s) _ w finds ∙ bind-some (run_round al e p s1) _ w runs))

-- A round of a worker, on a scheduler that is not shut down: if a search through the lists of the
-- queues, in the order that the settings ask for and past the queues whose trylock fails, finds the
-- task `p`, and it is there with its future, then the round ends with that task run and freed and
-- counted as completed, its callback called unless it was cancelled, its future and completion
-- callback told once, and with the lists less that task in the queues.
pub worker_round_runs :
    {S : Type 0} (al : Allocators S) (e : Surroundings) (id backoff : ℕ) (s : Scheduler) (v : Lists)
    (p : ℕ) (t : Task) (fp : ℕ) (f : Future) (w : World S)
    → View s v.0 v.1
    → length s.workers ≡ s.worker_count
    → s.worker_count < 2 ^ 31
    → id < s.worker_count
    → s.shutdown_flag ≡ 0
    → (search_lists (free_in e) (look_order s id) v).0 ≡ some p
    → w.tasks p ≡ some t
    → t.future ≡ some fp
    → w.futures fp ≡ some f
    → 0 < s.tasks_pending
    → s.tasks_pending < 2 ^ 32
    → s.tasks_active < 2 ^ 32
    → (s' : Scheduler) × (w' : World S) × (worker_round al e id s backoff w
        ≡ some ((false, s', 0), w'))
      × Ran s s' p (run_events t fp f (not (t.canceled == 0))) w w'
      × (let left = (search_lists (free_in e) (look_order s id) v).1 in View s' left.0 left.1)
worker_round_runs al e id backoff s v p t fp f w h array few lt open_now found et a ef lo hi act =
    let (k, ek) = worker_there s.workers id (omega (arith, array)) in
    let (r, finds, o) = find_task_lem e id s v w h array few lt in
    let same : (g : Scheduler → ℕ)
        → g r.2 ≡ g (record s { workers = r.2.workers; global_queue = r.2.global_queue }) =
      λ g. ap g o.kept.rest_same in
    let (s', w', runs, ran) =
      run_round-Ran al e p r.2 t fp f w et a ef (omega (arith, lo, same (λ x. x.tasks_pending)))
        (omega (arith, hi, same (λ x. x.tasks_pending)))
        (omega (arith, act, same (λ x. x.tasks_active))) in
    let kept = run_round-queues al e p r.2 t fp f w et a ef runs in
    (
      s',
      w',
      round_lem al e id backoff s r.2 s' k p w w' ek (open_stays s k open_now)
          (finds
            ∙ ap₂ (λ (b : Bool) (x : Option ℕ). some ((b, x, r.2), w)) (o.told ∙ ap is_some found)
                (o.task ∙ found))
          runs,
      Ran-Requeued o.kept ran,
      record {
        global = subst (λ q. Holds q left.0) (sym kept.0) o.view.global;
        each = subst (λ ks. EachHolds ks left.1) (sym kept.1) o.view.each;
      },
    )
  where
    left : Lists
    left = (search_lists (free_in e) (look_order s id) v).1
