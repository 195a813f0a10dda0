-- ===== src/Scheduler/Find.antt =====
-- The whole search of a round of `worker_main`.
use fast_queue.Prelude.{
  ℕ, ◌+◌, ◌^◌, ◌<◌, ◌≡◌, refl, sym, subst, ap, ◌∙◌, fun_ext, Bool, true, false, Option, none, some,
  List, [], ◌∷◌, ◌++◌, if◌then◌else◌, length, arith,
}
use fast_queue.World.Defs.{M, World, ◌>>=◌, pure}
use fast_queue.Future.Laws.{bind-some}
use fast_queue.Scheduler.Defs.{Scheduler}
use fast_queue.Scheduler.Worker.{
  Surroundings, Found, pop_global, pop_worker, try_steal, steal_loop, steal_if_enabled, find_task,
}
use fast_queue.Scheduler.Views.{View}
use fast_queue.Scheduler.Search.{
  Source, shared, queue_of, Lists, attempt, resume, search_lists, order, others, look_order,
  free_in,
}
use fast_queue.Scheduler.Steal.{
  Outcome, Thief, Thief-Outcome, Outcome-next, pop_global_lem, pop_worker_lem, steal_loop_lem,
}

resume-resume :
    (f g : Lists → Option ℕ × Lists) (a : Option ℕ × Lists)
    → resume g (resume f a) ≡ resume (λ v. resume g (f v)) a
resume-resume f g (none, v) = refl
resume-resume f g (some t, v) = refl

resume-end : (a : Option ℕ × Lists) → resume (λ v. (none, v)) a ≡ a
resume-end (none, v) = refl
resume-end (some t, v) = refl

search_lists-append :
    (free : Source → Bool) (xs ys : List Source) (v : Lists)
    → search_lists free (xs ++ ys) v ≡ resume (search_lists free ys) (search_lists free xs v)
search_lists-append free [] ys v = refl
search_lists-append free (x ∷ xs) ys v =
    ap (λ f. resume f (attempt (free x) x v)) (fun_ext (search_lists-append free xs ys))
    ∙ sym (resume-resume (search_lists free xs) (search_lists free ys) (attempt (free x) x v))

pure_if :
    {S : Type 0} (b : Bool) (x y : Found) (w : World S)
    → pure (if b then x else y) w ≡ (if b then pure x else pure y) w
pure_if true x y w = refl
pure_if false x y w = refl

module _ {S : Type 0} (e : Surroundings) (id count : ℕ) (pos : 0 < count)
    (few : id + 1 + count < 2 ^ 32) where
  steal_lem :
      (b : Bool) (s : Scheduler) (v : Lists) (task : Option ℕ) (w : World S)
      → Thief s v count
      → task ≡ none
      → (r : Found) × ((if b then try_steal e.worker_free id s task else pure (false, task, s)) w
          ≡ some (r, w))
        × Outcome s r (search_lists (free_in e) (others b id count) v)
  unfolding try_steal
  steal_lem true s v task w k none_yet =
      let (r, run, o) =
        steal_loop_lem (free_in e) count count 0 id s v task w k pos (omega arith) none_yet in
      (r, ap (λ (n : ℕ). steal_loop e.worker_free n 0 id s task w) k.count_eq ∙ run, o)
  steal_lem false s v task w k none_yet = (
    (false, none, s),
    ap (λ (x : Option ℕ). some ((false, x, s), w)) none_yet,
    record {
      told = refl;
      task = refl;
      view = k.seen;
      kept = record { rest_same = refl; workers_same = refl };
    },
  )

  -- Stealing after something was tried: the setting is still that of `s`.
  steal_after :
      {s : Scheduler} {r : Found} (v : Lists) (w : World S)
      → Thief r.2 v count
      → Outcome s r (none, v)
      → (r' : Found) × (steal_if_enabled e.worker_free id r.2 r.1 w ≡ some (r', w))
        × Outcome r.2 r' (search_lists (free_in e) (others s.enable_work_stealing id count) v)
  steal_after {s} {r} v w k o =
      subst
        (λ (b : Bool).
          (r' : Found) × (steal_if_enabled e.worker_free id r.2 r.1 w ≡ some (r', w))
          × Outcome r.2 r' (search_lists (free_in e) (others b id count) v))
        (ap (λ (x : Scheduler). x.enable_work_stealing) o.kept.rest_same)
        (steal_lem r.2.enable_work_stealing r.2 v r.1 w k o.task)

  own_lem :
      (s : Scheduler) (v : Lists) (task : Option ℕ) (w : World S)
      → Thief s v count
      → id < count
      → task ≡ none
      → (r : Found) × (pop_worker (e.worker_free id) id s task w ≡ some (r, w))
        × Outcome s r (attempt (e.worker_free id) (queue_of id) v)
  own_lem s v task w k lt none_yet =
      rw none_yet (pop_worker_lem (e.worker_free id) s v id w k.seen (omega (arith, k.array)))

  -- The worker's own queue, and then those of the others
  own_then_steal :
      (s : Scheduler) (v : Lists) (task : Option ℕ) (w : World S)
      → Thief s v count
      → id < count
      → task ≡ none
      → (r : Found) × ((pop_worker (e.worker_free id) id s task >>= λ o.
              if o.0 then pure o else steal_if_enabled e.worker_free id o.2 o.1)
            w
          ≡ some (r, w))
        × Outcome s r
            (search_lists (free_in e) (queue_of id ∷ others s.enable_work_stealing id count) v)
  own_then_steal s v task w k lt none_yet =
      let a = attempt (e.worker_free id) (queue_of id) v in
      let (o, run, found) = own_lem s v task w k lt none_yet in
      let (r, run', out) =
        Outcome-next a (search_lists (free_in e) (others s.enable_work_stealing id count))
          (λ o. steal_if_enabled e.worker_free id o.2 o.1) w found
          (λ miss. steal_after a.1 w (Thief-Outcome a k found) miss) in
      (r, bind-some (pop_worker (e.worker_free id) id s task) _ w run ∙ run', out)

  priority_lem :
      (s : Scheduler) (v : Lists) (w : World S)
      → Thief s v count
      → id < count
      → let g = pop_global e.global_free s none in
        (r : Found) × ((if g.0 then pure g else (do
          o ← pop_worker (e.worker_free id) id g.2 g.1
          if o.0 then pure o else steal_if_enabled e.worker_free id o.2 o.1))
            w
          ≡ some (r, w))
        × Outcome s r (search_lists (free_in e) (order true s.enable_work_stealing id count) v)
  priority_lem s v w k lt =
      let a = attempt e.global_free shared v in
      let found = pop_global_lem e.global_free s v k.seen in
      Outcome-next a
        (search_lists (free_in e) (queue_of id ∷ others s.enable_work_stealing id count))
        (λ g. pop_worker (e.worker_free id) id g.2 g.1 >>= λ o.
          if o.0 then pure o else steal_if_enabled e.worker_free id o.2 o.1)
        w found
        (λ miss.
          own_then_steal (pop_global e.global_free s none).2 a.1 (pop_global e.global_free s none).1
            w (Thief-Outcome a k found) lt miss.task)

  -- The global queue, where nothing was found before
  global_after :
      (s : Scheduler) (t : Found) (a : Option ℕ × Lists) (w : World S)
      → Outcome s t a
      → (r : Found) × (pure (if t.0 then t else pop_global e.global_free t.2 t.1) w ≡ some (r, w))
        × Outcome s r (resume (search_lists (free_in e) (shared ∷ [])) a)
  global_after s t a w found =
      let (r, run, out) =
        Outcome-next a (search_lists (free_in e) (shared ∷ []))
          (λ t. pure (pop_global e.global_free t.2 t.1)) w found
          (λ miss.
            let last = attempt e.global_free shared a.1 in
            (
              pop_global e.global_free t.2 t.1,
              refl,
              subst (Outcome t.2 (pop_global e.global_free t.2 t.1)) (sym (resume-end last)) (
                  subst (λ (o : Option ℕ). Outcome t.2 (pop_global e.global_free t.2 o) last)
                    (sym miss.task) (pop_global_lem e.global_free t.2 a.1 miss.view)),
            )) in
      (r, pure_if t.0 t (pop_global e.global_free t.2 t.1) w ∙ run, out)

  plain_lem :
      (s : Scheduler) (v : Lists) (w : World S)
      → Thief s v count
      → id < count
      → (r : Found) × ((pop_worker (e.worker_free id) id s none >>= λ o. if o.0 then pure o else (do
        t ← steal_if_enabled e.worker_free id o.2 o.1
        pure (if t.0 then t else pop_global e.global_free t.2 t.1)))
            w
          ≡ some (r, w))
        × Outcome s r (search_lists (free_in e) (order false s.enable_work_stealing id count) v)
  plain_lem s v w k lt =
      let a = attempt (e.worker_free id) (queue_of id) v in
      let rest = others s.enable_work_stealing id count in
      let (o, run, found) = own_lem s v none w k lt refl in
      let (r, run', out) =
        Outcome-next a (search_lists (free_in e) (rest ++ shared ∷ []))
          (λ o. steal_if_enabled e.worker_free id o.2 o.1 >>= λ t.
            pure (if t.0 then t else pop_global e.global_free t.2 t.1))
          w found
          (λ miss.
            let (t, steals, tried) = steal_after a.1 w (Thief-Outcome a k found) miss in
            let (r, last, out) = global_after o.2 t (search_lists (free_in e) rest a.1) w tried in
            (
              r,
              bind-some (steal_if_enabled e.worker_free id o.2 o.1) _ w steals ∙ last,
              subst (Outcome o.2 r) (sym (search_lists-append (free_in e) rest (shared ∷ []) a.1))
                  out,
            )) in
      (r, bind-some (pop_worker (e.worker_free id) id s none) _ w run ∙ run', out)

by_setting :
    {A : Type 0} (P : Bool → A → Type 0) (b : Bool) {x y : A}
    → P true x
    → P false y
    → P b (if b then x else y)
by_setting P true p q = p
by_setting P false p q = q

-- The search of a worker's round always ends. It finds what a search through the lists of the queues
-- finds: the oldest task of the first queue that is not empty and whose trylock succeeds, in the order
-- that the settings ask for, or none. That task is taken from its queue; the other queues hold what
-- they held, and all else of the scheduler is as it was.
pub find_task_lem :
    {S : Type 0} (e : Surroundings) (id : ℕ) (s : Scheduler) (v : Lists) (w : World S)
    → View s v.0 v.1
    → length s.workers ≡ s.worker_count
    → s.worker_count < 2 ^ 31
    → id < s.worker_count
    → (r : Found) × (find_task e id s w ≡ some (r, w))
      × Outcome s r (search_lists (free_in e) (look_order s id) v)
unfolding find_task
find_task_lem {S} e id s v w h array few lt =
    let thief : Thief s v s.worker_count = record { seen = h; count_eq = refl; array = array } in
    by_setting {A = M S Found}
      (λ b m.
        (r : Found) × (m w ≡ some (r, w))
        × Outcome s r
            (search_lists (free_in e) (order b s.enable_work_stealing id s.worker_count) v))
      s.enable_priority
      (priority_lem e id s.worker_count (omega arith) (omega arith) s v w thief lt)
      (plain_lem e id s.worker_count (omega arith) (omega arith) s v w thief lt)
