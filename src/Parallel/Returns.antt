-- ===== src/Parallel/Returns.antt =====
-- A round of `fq_scheduler_parallel_for` returns, whether or not its submission fails.
use native.Mathlib.Nat.{mod-lt}
use mathlib.Core.List.{map-append}
use fast_queue.Prelude.{
  ℕ, ◌%◌, ◌≤◌, ◌<◌, ◌≡◌, ◌⊎◌, refl, sym, subst, ap, ◌∙◌, true, false, inl, inr, Bool-cases,
  Option-cases, none, some, List, [], ◌∷◌, ◌++◌, map, not, if◌then◌else◌, length, length-set, arith,
  ℕ_discrete,
}
use fast_queue.Types.{Status, status_ok, Priority, Ptr}
use fast_queue.Queue.Ring.{push_task}
use fast_queue.Memory.Allocator.{
  Allocators, resolve, fq_calloc, fq_alloc, fq_free, default_allocator,
}
use fast_queue.World.Defs.{Task, World, M, update, ◌>>◌, pure}
use fast_queue.Future.Laws.{bind-some, update_self}
use fast_queue.Task
use fast_queue.Task.{new_task, create_at, create_with_completion, sizeof_task}
use fast_queue.Task.Destroy.{FutureThere, destroy_total}
use fast_queue.Scheduler.Defs.{Worker, Scheduler}
use fast_queue.Scheduler.Submit.{goes_global, submit, submit_fn, counted}
use fast_queue.Scheduler.Accounting.{placed, routed, settled, submit_lem, submit_refuses}
use fast_queue.Scheduler.Views.{worker_there}
use fast_queue.Parallel.Ranges.{Range}
use fast_queue.Parallel.Submit.{Started, sizeof_range, after_submit, submit_range, start_range}

-- Every turn names a worker that is there.
pub record Staffed (s : Scheduler) : Type 0 where
  pub some_worker : 0 < s.worker_count
  pub all_there : s.worker_count ≤ length s.workers

placed-Staffed :
    (s : Scheduler) (i : ℕ) (k : Worker) (task : ℕ) → Staffed s → Staffed (placed s i k task).1
unfolding placed
placed-Staffed s i k task h = elim (Bool-cases (not (status_ok (push_task k.queue task).0))) [
  | inl e ↦ rw e (record {
    some_worker = h.some_worker;
    all_there = omega (arith, h.all_there, length-set s.workers i _);
  })
  | inr e ↦ rw e (record {
    some_worker = h.some_worker;
    all_there = omega (arith, h.all_there, length-set s.workers i _);
  })
]

routed-Staffed :
    (s : Scheduler) (task : ℕ) (p : Priority) (n : ℕ) (k : Worker)
    → Staffed s
    → Staffed (routed s task p n k).1
unfolding routed
routed-Staffed s task p n k h = elim (Bool-cases (goes_global s p)) [
  | inl e ↦ rw e (record { some_worker = h.some_worker; all_there = h.all_there })
  | inr e ↦ rw e (placed-Staffed s (n % s.worker_count) k task h)
]

settled-Staffed :
    {S : Type 0} (r : Status × Scheduler × ℕ) (w : World S)
    → Staffed r.1
    → Staffed (settled r w).0.1 × ((settled r w).1.tasks ≡ w.tasks)
unfolding settled
settled-Staffed r w h = elim (Bool-cases (status_ok r.0)) [
  | inl e ↦ rw e (h, refl)
  | inr e ↦ rw e (record { some_worker = h.some_worker; all_there = h.all_there }, refl)
]

module _ {S : Type 0} where
  -- What a submission gives: it returns, and the workers and the tasks are still there.
  abbrev Submitted : M S (Status × Scheduler × ℕ) → World S → Type 0
  Submitted m w =
      (r : Status × Scheduler × ℕ) × (w' : World S) × (m w ≡ some (r, w'))
      × Staffed r.1
      × (w'.tasks ≡ w.tasks)

  submit_total :
      (s : Scheduler) (task n : ℕ) (t : Task) (w : World S)
      → Staffed s
      → w.tasks task ≡ some t
      → Submitted (submit s (some task) n) w
  submit_total s task n t w h e = elim (ℕ_discrete s.shutdown_flag 0) [
    | no shut ↦ (_, _, (submit_refuses s (some task) n w shut).0, h, refl)
    | yes open_now ↦
        let (k, there) =
          worker_there s.workers (n % s.worker_count)
            (omega (arith, h.all_there, mod-lt n h.some_worker)) in
        let kept = settled-Staffed (routed (counted s) task t.priority n k) w (
          routed-Staffed (counted s) task t.priority n k
            (record { some_worker = h.some_worker; all_there = h.all_there })) in
        (_, _, submit_lem s task n t k w open_now e there, kept.0, kept.1)
  ]

module _ {S : Type 0} (al : Allocators S) where
  -- `fq_task_create` with a callback: no memory, or a new task without a future.
  abbrev CreatedTask : ℕ → ℕ → ℕ → World S → Type 0
  CreatedTask fn a allocator w =
      ((w' : World S) × (Task.create al true (some fn) a (some allocator) w
          ≡ some ((Status.err_nomem, none), w')))
      ⊎ ((p : ℕ) × (t : Task) × (w' : World S) × (Task.create al true (some fn) a (some allocator) w
            ≡ some ((Status.ok, some p), w'))
          × (w'.tasks p ≡ some t)
          × (t.future ≡ none))

  task_created : (fn a allocator : ℕ) (w : World S) → CreatedTask fn a allocator w
  unfolding Task.create create_with_completion create_at
  task_created fn a allocator w =
      let block = fq_calloc al (some (resolve (some allocator))) 1 sizeof_task w.heap in
      elim (Option-cases block.0) [
        | inl nothing ↦ inl (record w { heap = block.1 }, rw (nothing, create_at) refl)
        | inr (p, there) ↦
            let t = new_task fn a none 0 (resolve (some allocator)) in
            inr (
              p,
              t,
              record w { heap = block.1; tasks = update w.tasks p (some t) },
              rw (there, create_at) refl,
              update_self w.tasks p (some t),
              refl,
            )
      ]

  -- `fq_scheduler_submit_fn` returns, and the workers are still there.
  abbrev Submission : M S (Status × Scheduler × ℕ) → World S → Type 0
  Submission m w =
      (r : Status × Scheduler × ℕ) × (w' : World S) × (m w ≡ some (r, w')) × Staffed r.1

  -- The end of `fq_scheduler_submit_fn`: a task that was refused is destroyed.
  settled_fn :
      (p : ℕ) (t : Task) (r : Status × Scheduler × ℕ) (w : World S)
      → w.tasks p ≡ some t
      → t.future ≡ none
      → Staffed r.1
      → Submission ((if not (status_ok r.0) then Task.destroy al (some p) else pure tt) >> pure r) w
  settled_fn p t r w e free h = elim (Bool-cases (not (status_ok r.0))) [
    | inl refused ↦
        let (w', run, gone) = destroy_total al p w (t, e, subst (FutureThere w) (sym free) tt) in
        (r, w', rw refused (bind-some (Task.destroy al (some p)) (λ u. pure r) w run), h)
    | inr taken ↦ (r, w, rw taken refl, h)
  ]

  submit_fn_total :
      (s : Scheduler) (fn a n : ℕ) (w : World S)
      → Staffed s
      → Submission (submit_fn al s (some fn) a n) w
  unfolding submit_fn
  submit_fn_total s fn a n w h = elim (task_created fn a s.allocator w) [
    | inl (w1, run) ↦ (
      (Status.err_nomem, s, n),
      w1,
      bind-some (Task.create al true (some fn) a (some s.allocator)) _ w run,
      h,
    )
    | inr (p, t, w1, run, e, free) ↦
        let (r, w2, submits, staffed, same) = submit_total s p n t w1 h e in
        let (r', w3, ends, staffed') = settled_fn p t r w2 (ap (λ g. g p) same ∙ e) free staffed in
        (
          r',
          w3,
          bind-some (Task.create al true (some fn) a (some s.allocator)) _ w run
              ∙ bind-some (submit s (some p) n) _ w1 submits
              ∙ ends,
          staffed',
        )
  ]

-- The ranges of the tasks that were submitted
abbrev pub ranges_of : Started → List Range
ranges_of x = map (λ (e : ℕ × Range). e.1) x.3

is_ok : (st : Status) → not (status_ok st) ≡ false → st ≡ Status.ok
is_ok st e = ground arith

not_ok : (st : Status) → not (status_ok st) ≡ true → status_ok st ≡ false
not_ok st e = ground arith

module _ {S : Type 0} (al : Allocators S) (worker : ℕ) where
  -- A round returns: its range is submitted, or nothing more is.
  abbrev pub RoundReturns : Range → Started → World S → Type 0
  RoundReturns range x w =
      (x' : Started) × (w' : World S) × (start_range al worker x.1 x.2 x.3 range w ≡ some (x', w'))
      × Staffed x'.1
      × (((x'.0 ≡ Status.ok) × (ranges_of x' ≡ ranges_of x ++ range ∷ []))
          ⊎ ((status_ok x'.0 ≡ false) × (ranges_of x' ≡ ranges_of x)))

  after_submit-refused :
      (a : ℕ) (range : Range) (l : List (ℕ × Range)) (r : Status × Scheduler × ℕ) (w : World S)
      → not (status_ok r.0) ≡ true
      → after_submit al worker a range l r w
        ≡ some (
          (r.0, r.1, r.2, l),
          record w { heap = fq_free al (some default_allocator) (some a) w.heap },
        )
  unfolding after_submit
  after_submit-refused a range l r w e = rw e refl

  after_submit-taken :
      (a : ℕ) (range : Range) (l : List (ℕ × Range)) (r : Status × Scheduler × ℕ) (w : World S)
      → not (status_ok r.0) ≡ false
      → after_submit al worker a range l r w ≡ some ((r.0, r.1, r.2, l ++ (a, range) ∷ []), w)
  unfolding after_submit
  after_submit-taken a range l r w e = rw e refl

  pub start_range_total :
      (range : Range) (x : Started) (w : World S) → Staffed x.1 → RoundReturns range x w
  unfolding start_range submit_range
  start_range_total range x w h =
      let block = fq_alloc al (some default_allocator) sizeof_range w.heap in
      let w1 = record w { heap = block.1 } in
      let given = λ (o : Ptr). submit_range al worker x.1 x.2 x.3 range o w1 in
      elim (Option-cases block.0) [
        | inl nothing ↦
            ((Status.err_nomem, x.1, x.2, x.3), w1, ap given nothing, h, inr (refl, refl))
        | inr (a, there) ↦
            let (r, w2, run, staffed) = submit_fn_total al x.1 worker a x.2 w1 h in
            let submitted =
              ap given there
              ∙ bind-some (submit_fn al x.1 (some worker) a x.2)
                  (after_submit al worker a range x.3) w1 run in
            elim (Bool-cases (not (status_ok r.0))) [
              | inl refused ↦ (
                (r.0, r.1, r.2, x.3),
                record w2 { heap = fq_free al (some default_allocator) (some a) w2.heap },
                submitted ∙ after_submit-refused a range x.3 r w2 refused,
                staffed,
                inr (not_ok r.0 refused, refl),
              )
              | inr taken ↦ (
                (r.0, r.1, r.2, x.3 ++ (a, range) ∷ []),
                w2,
                submitted ∙ after_submit-taken a range x.3 r w2 taken,
                staffed,
                inl (is_ok r.0 taken, map-append (λ (e : ℕ × Range). e.1) x.3 ((a, range) ∷ [])),
              )
            ]
      ]
