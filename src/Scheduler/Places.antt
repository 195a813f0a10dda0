-- ===== src/Scheduler/Places.antt =====
-- Where `fq_scheduler_submit` puts a task.
use fast_queue.Prelude.{
  ℕ, ◌-◌, ◌%◌, ◌≡◌, refl, sym, subst, ap, ◌∙◌, Bool, true, false, some, List, [], ◌∷◌, ◌++◌, inl,
  inr, Bool-cases, if◌then◌else◌, ◌&&◌, get_elem?, get_or, set, arith,
}
use fast_queue.Types.{Status, status_ok, Priority}
use fast_queue.Queue.Fifo
use fast_queue.Queue.Ring.{push_task}
use fast_queue.Queue.Refine.{push_refines}
use fast_queue.World.Defs.{Event, Task, World}
use fast_queue.Scheduler.Defs.{Worker, Scheduler, store_queue}
use fast_queue.Scheduler.Submit.{goes_global, submit, counted, uncounted}
use fast_queue.Scheduler.Accounting.{placed, routed, settled, submit_lem}
use fast_queue.Scheduler.Views.{set-get_or, View, EachHolds, EachHolds-get, EachHolds-set}

-- The priorities that do not wait for a worker's turn
abbrev pub jumps : Priority → Bool
jumps Priority.low = false
jumps Priority.normal = false
jumps Priority.high = true
jumps Priority.urgent = true

goes_global_lem : (s : Scheduler) (p : Priority) → goes_global s p ≡ (s.enable_priority && jumps p)
unfolding goes_global
goes_global_lem s Priority.low = refl
goes_global_lem s Priority.normal = refl
goes_global_lem s Priority.high = refl
goes_global_lem s Priority.urgent = refl

-- The lists after a submission: to the global list if it goes there, and else to the list of the
-- worker `i`, or the global one if that is full.
abbrev pub place : Bool → ℕ → ℕ → List ℕ → List (List ℕ) → ℕ → ℕ → Status × List ℕ × List (List ℕ)
place true room worker_room gs ls i task = let (st, gs') = Fifo.push room gs task in (st, gs', ls)
place false room worker_room gs ls i task =
    let (st, l) = Fifo.push worker_room (get_or ls i []) task in
    let (st', gs') = Fifo.push room gs task in
    if status_ok st then (st, gs, set ls i l) else (st', gs', ls)

push_failed :
    (room : ℕ) (xs : List ℕ) (t : ℕ)
    → status_ok (Fifo.push room xs t).0 ≡ false
    → (Fifo.push room xs t).1 ≡ xs
unfolding Fifo.push
push_failed room xs t e = ground arith

placed_lem :
    (s : Scheduler) (gs : List ℕ) (ls : List (List ℕ)) (i task : ℕ) (k : Worker)
    → View s gs ls
    → get_elem? s.workers i ≡ some k
    → let r = placed s i k task in
      let (st, gs', ls') =
        place false (s.global_queue.capacity - 1) (k.queue.capacity - 1) gs ls i task in
      (r.0 ≡ st) × View r.1 gs' ls'
unfolding placed
placed_lem s gs ls i task k v e =
    let p = push_refines (get_or ls i []) task (EachHolds-get s.workers ls i k v.each e) in
    let g = push_refines gs task v.global in
    let stored =
      EachHolds-set s.workers ls i (record k { queue = (push_task k.queue task).1 }) _ v.each p.1 in
    elim (Bool-cases (status_ok (Fifo.push (k.queue.capacity - 1) (get_or ls i []) task).0)) [
      | inl fits ↦ rw (p.0, fits) (refl, record { global = v.global; each = stored })
      | inr full ↦
          let same = push_failed (k.queue.capacity - 1) (get_or ls i []) task full in
          rw (p.0, full)
            (
              g.0,
              record {
                global = g.1;
                each =
                    subst (EachHolds (store_queue s i k (push_task k.queue task).1).workers)
                      (ap (set ls i) same ∙ set-get_or ls i []) stored;
              },
            )
    ]

routed_lem :
    (s : Scheduler) (gs : List ℕ) (ls : List (List ℕ)) (task n : ℕ) (t : Task) (k : Worker)
    → View s gs ls
    → get_elem? s.workers (n % s.worker_count) ≡ some k
    → let r = routed s task t.priority n k in
      let (st, gs', ls') =
        place
          (s.enable_priority && jumps t.priority)
          (s.global_queue.capacity - 1)
          (k.queue.capacity - 1)
          gs
          ls
          (n % s.worker_count)
          task in
      (r.0 ≡ st) × View r.1 gs' ls'
unfolding routed
routed_lem s gs ls task n t k v e = elim (Bool-cases (goes_global s t.priority)) [
  | inl to_global ↦
      let g = push_refines gs task v.global in
      rw (to_global, sym (goes_global_lem s t.priority) ∙ to_global)
        (g.0, record { global = g.1; each = v.each })
  | inr to_worker ↦
      rw (to_worker, sym (goes_global_lem s t.priority) ∙ to_worker)
        (placed_lem s gs ls (n % s.worker_count) task k v e)
]

-- The world after a submission that had this status
abbrev pub notified : {S : Type 0} → Status → World S → World S
notified st w =
    if status_ok st then record w { events = w.events ++ Event.woke_one_worker ∷ [] } else w

settled_lem :
    {S : Type 0} (r : Status × Scheduler × ℕ) (st : Status) (gs : List ℕ) (ls : List (List ℕ))
    (w : World S)
    → r.0 ≡ st
    → View r.1 gs ls
    → (s' : Scheduler) × (n' : ℕ) × (settled r w ≡ ((st, s', n'), notified st w)) × View s' gs ls
unfolding settled
settled_lem r st gs ls w e v = elim (Bool-cases (status_ok st)) [
  | inl ok ↦ (r.1, r.2, rw (e, ok) refl, v)
  | inr failed ↦
      (uncounted r.1, r.2, rw (e, failed) refl, record { global = v.global; each = v.each })
]

-- `fq_scheduler_submit` on an open scheduler puts the task where the setting, the priority and the
-- turn of the thread say: behind the tasks of the worker `n % worker_count`, behind those of the
-- global queue if that worker's queue is full, or there at once for a task of high or urgent
-- priority where priorities are enabled. The status is FQ_ERR_OVERFLOW, and every queue as it was, only if there is
-- no room there. One worker is woken just if the status is FQ_OK.
pub submit_places :
    {S : Type 0} (s : Scheduler) (gs : List ℕ) (ls : List (List ℕ)) (task n : ℕ) (t : Task)
    (k : Worker) (w : World S)
    → View s gs ls
    → s.shutdown_flag ≡ 0
    → w.tasks task ≡ some t
    → get_elem? s.workers (n % s.worker_count) ≡ some k
    → let (st, gs', ls') =
        place
          (s.enable_priority && jumps t.priority)
          (s.global_queue.capacity - 1)
          (k.queue.capacity - 1)
          gs
          ls
          (n % s.worker_count)
          task in
      (s' : Scheduler) × (n' : ℕ) × (submit s (some task) n w ≡ some ((st, s', n'), notified st w))
      × View s' gs' ls'
submit_places s gs ls task n t k w v open_now e ek =
    let r = routed (counted s) task t.priority n k in
    let p =
      routed_lem (counted s) gs ls task n t k (record { global = v.global; each = v.each }) ek in
    let (s', n', settles, v') = settled_lem r _ _ _ w p.0 p.1 in
    (s', n', submit_lem s task n t k w open_now e ek ∙ ap (λ x. some x) settles, v')
