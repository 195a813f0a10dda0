-- ===== src/Task/Destroy.antt =====
-- `fq_task_destroy` on any task that is there, with any future that is there or none.
use fast_queue.Prelude.{
  ℕ, ◌≡◌, ◌≢◌, refl, ap, ◌∙◌, true, Bool-cases, inl, inr, Option, none, some, ◌==◌, not, arith,
  ℕ_discrete,
}
use fast_queue.Types.{Ptr}
use fast_queue.Memory.Allocator.{Allocators}
use fast_queue.World.Defs.{Task, Future, World, update, load_task}
use fast_queue.Future
use fast_queue.Future.Laws.{bind-some, put_future, update_self, is_ready_lem, cancel-again}
use fast_queue.Task.{cancel_unfulfilled, destroy}
use fast_queue.Task.Laws.{load_task_lem}
use fast_queue.Task.Cancel.{
  canceled_future, cancel_events, without_task, unfulfilled_done, unfulfilled_pending,
}

-- The future of a task, if it has one, is there.
abbrev pub FutureThere : {S : Type 0} → World S → Ptr → Type 0
FutureThere w none = Unit
FutureThere w (some fp) = (f : Future) × (w.futures fp ≡ some f)

abbrev pub Present : {S : Type 0} → World S → ℕ → Type 0
Present w p = (t : Task) × (w.tasks p ≡ some t) × FutureThere w t.future

-- The futures that were there still are.
abbrev pub FuturesKept : {S : Type 0} → World S → World S → Type 0
FuturesKept w w' =
    (fp : ℕ) (f : Future) → w.futures fp ≡ some f → (f' : Future) × (w'.futures fp ≡ some f')

pub record Destroyed {S : Type 0} (p : ℕ) (w w' : World S) : Type 0 where
  pub gone : w'.tasks p ≡ none
  pub others : (q : ℕ) → q ≢ p → w'.tasks q ≡ w.tasks q
  pub futures_kept : FuturesKept w w'

update-there :
    (g : ℕ → Option Future) (p q : ℕ) (f h : Future)
    → g q ≡ some f
    → (f' : Future) × (update g p (some h) q ≡ some f')
update-there g p q f h e = elim (Bool-cases (p == q)) [
  | inl same ↦ (h, rw same refl)
  | inr other ↦ (f, rw other e)
]

update_other : (g : ℕ → Option Task) (p q : ℕ) → q ≢ p → update g p none q ≡ g q
update_other g p q h = ground arith

not-zero : (n : ℕ) → n ≢ 0 → not (n == 0) ≡ true
not-zero n h = ground arith

module _ {S : Type 0} (al : Allocators S) where
  unfulfilled_again :
      (fp : ℕ) (f : Future) (w : World S)
      → w.futures fp ≡ some f
      → f.canceled ≢ 0
      → f.ready ≡ 0
      → cancel_unfulfilled al (some fp) w ≡ some (tt, w)
  unfolding cancel_unfulfilled
  unfulfilled_again fp f w e c r =
      bind-some (Future.is_ready (some fp)) _ w
        (is_ready_lem fp f w e ∙ ap (λ (n : ℕ). some (not (n == 0), w)) r)
      ∙ bind-some (Future.cancel (some fp)) _ w (cancel-again fp f w e c)

  cancel_unfulfilled_total :
      (o : Ptr) (w : World S)
      → FutureThere w o
      → (w' : World S) × (cancel_unfulfilled al o w ≡ some (tt, w'))
        × (w'.tasks ≡ w.tasks)
        × FuturesKept w w'
  unfolding cancel_unfulfilled
  cancel_unfulfilled_total none w there = (w, refl, refl, λ fp f e. (f, e))
  cancel_unfulfilled_total (some fp) w (f, e) = elim (ℕ_discrete f.ready 0) [
    | no r ↦ (w, unfulfilled_done al fp f w e r, refl, λ q g h. (g, h))
    | yes r ↦ elim (ℕ_discrete f.canceled 0) [
      | no c ↦ (w, unfulfilled_again fp f w e c r, refl, λ q g h. (g, h))
      | yes c ↦ (
        put_future fp (canceled_future f) (cancel_events fp f) w,
        unfulfilled_pending al fp f w e c r,
        refl,
        λ q g h. update-there w.futures fp q g (canceled_future f) h,
      )
    ]
  ]

  -- `fq_task_destroy` on a task that is there, and whose future is there if it has one, returns: then the
  -- task is gone, the other tasks are as they were, and every future is still there.
  pub destroy_total :
      (p : ℕ) (w : World S)
      → Present w p
      → (w' : World S) × (destroy al (some p) w ≡ some (tt, w')) × Destroyed p w w'
  unfolding destroy
  destroy_total p w (t, e, there) =
      let (w1, run, same, kept) = cancel_unfulfilled_total t.future w there in
      (
        without_task al p t w1,
        bind-some (load_task p) _ w (load_task_lem p t w e)
            ∙ bind-some (cancel_unfulfilled al t.future) _ w run,
        record {
          gone = update_self w1.tasks p none;
          others = λ q ne. update_other w1.tasks p q ne ∙ ap (λ g. g q) same;
          futures_kept = kept;
        },
      )
