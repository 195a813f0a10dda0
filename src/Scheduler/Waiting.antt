-- ===== src/Scheduler/Waiting.antt =====
-- Tasks that wait in a queue, and their destruction one after the other.
use fast_queue.Prelude.{
  ℕ, suc, ◌+◌, ◌%◌, ◌^◌, ◌<◌, ◌≡◌, ◌≢◌, ap, ◌∙◌, Option, none, some, List, [], ◌∷◌, ◌++◌, map,
  length, arith, add32, ℕ_discrete,
}
use fast_queue.Memory.Allocator.{Allocators}
use fast_queue.World.Defs.{World}
use fast_queue.Task as TaskCalls
use fast_queue.Future.Laws.{bind-some}
use fast_queue.Task.Destroy.{Present, FutureThere, FuturesKept, Destroyed, destroy_total}
use fast_queue.Scheduler.Cancel.{destroy_tasks}

abbrev pub NotIn : ℕ → List ℕ → Type 0
NotIn p [] = Unit
NotIn p (q ∷ l) = (q ≢ p) × NotIn p l

-- The tasks of a list are there, with their futures, and no two are the same.
abbrev pub Waiting : {S : Type 0} → World S → List ℕ → Type 0
Waiting w [] = Unit
Waiting w (p ∷ l) = Present w p × NotIn p l × Waiting w l

-- They are gone.
abbrev pub Gone : {S : Type 0} → World S → List ℕ → Type 0
Gone w [] = Unit
Gone w (p ∷ l) = (w.tasks p ≡ none) × Gone w l

-- What the destruction of some tasks leaves: no task that was not there.
pub record Fewer {S : Type 0} (w w' : World S) : Type 0 where
  pub still_gone : (q : ℕ) → w.tasks q ≡ none → w'.tasks q ≡ none

NotIn-append : (p : ℕ) (l r : List ℕ) → NotIn p (l ++ r) → NotIn p r
NotIn-append p [] r h = h
NotIn-append p (q ∷ l) r h = NotIn-append p l r h.1

module _ {S : Type 0} where
  FutureThere-kept :
      (o : Option ℕ) (w w' : World S) → FuturesKept w w' → FutureThere w o → FutureThere w' o
  FutureThere-kept none w w' k h = tt
  FutureThere-kept (some fp) w w' k (f, e) = k fp f e

  Waiting-Destroyed :
      (p : ℕ) (l : List ℕ) (w w' : World S)
      → Destroyed p w w'
      → NotIn p l
      → Waiting w l
      → Waiting w' l
  Waiting-Destroyed p [] w w' d n h = tt
  Waiting-Destroyed p (q ∷ l) w w' d n ((t, e, there), fresh, rest) = (
    (t, d.others q n.0 ∙ e, FutureThere-kept t.future w w' d.futures_kept there),
    fresh,
    Waiting-Destroyed p l w w' d n.1 rest,
  )

  Fewer-Destroyed : (p : ℕ) (w w' : World S) → Destroyed p w w' → Fewer w w'
  Fewer-Destroyed p w w' d = record {
    still_gone = λ q e. elim (ℕ_discrete q p) [
      | yes same ↦ rw same d.gone
      | no other ↦ d.others q other ∙ e
    ];
  }

  pub Gone-Fewer : (l : List ℕ) (w w' : World S) → Fewer w w' → Gone w l → Gone w' l
  Gone-Fewer [] w w' f h = tt
  Gone-Fewer (p ∷ l) w w' f h = (f.still_gone p h.0, Gone-Fewer l w w' f h.1)

  module _ (al : Allocators S) where
    -- The tasks at the front of a list of waiting tasks are destroyed and counted; they are gone, and the
    -- others wait on.
    pub destroy_tasks_total :
        (l r : List ℕ) (c : ℕ) (w : World S)
        → c < 2 ^ 32
        → Waiting w (l ++ r)
        → (w' : World S) × (destroy_tasks al (map some l) c w ≡ some ((c + length l) % 2 ^ 32, w'))
          × Gone w' l
          × Waiting w' r
          × Fewer w w'
    unfolding destroy_tasks
    destroy_tasks_total [] r c w small h = (
      w,
      ap (λ (n : ℕ). some (n, w)) {x = c} {y = (c + 0) % 2 ^ 32} (omega arith),
      tt,
      h,
      record { still_gone = λ q e. e },
    )
    destroy_tasks_total (p ∷ l) r c w small (here, fresh, rest) =
        let (w1, run, d) = destroy_total al p w here in
        let (w', runs, gone, wait, fewer) =
          destroy_tasks_total l r (add32 c 1) w1 (omega arith)
            (Waiting-Destroyed p (l ++ r) w w1 d fresh rest) in
        (
          w',
          bind-some (TaskCalls.destroy al (some p)) _ w run
              ∙ runs
              ∙ ap (λ (n : ℕ). some (n, w')) {x = (add32 c 1 + length l) % 2 ^ 32}
                  {y = (c + suc (length l)) % 2 ^ 32} (omega arith),
          (fewer.still_gone p d.gone, gone),
          wait,
          record {
            still_gone = λ q e. fewer.still_gone q ((Fewer-Destroyed p w w1 d).still_gone q e);
          },
        )
