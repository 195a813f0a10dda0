-- ===== src/Scheduler/Pool.antt =====
-- The tasks that a scheduler's queues hold, whatever the queue and the order: a quotient of the lists.
use mathlib.Core.Quot
use mathlib.Core.Quot.{Quot, Quot-set}
use fast_queue.Prelude.{
  ℕ, zero, suc, ◌+◌, ◌-◌, ◌%◌, ◌^◌, ◌<◌, ◌≡◌, ◌⊎◌, refl, sym, ap, ◌∙◌, Bool, true, false, Option,
  none, some, List, [], ◌∷◌, ◌++◌, inl, inr, Bool-cases, if◌then◌else◌, ◌==◌, ◌&&◌, ltb, length,
  get_elem?, get_or, set, arith,
}
use fast_queue.Types.{Status, status_ok}
use fast_queue.Queue.Fifo
use fast_queue.World.Defs.{Task, World}
use fast_queue.Scheduler.Counters.Tally.{total}
use fast_queue.Scheduler.Defs.{Worker, Scheduler}
use fast_queue.Scheduler.Submit.{submit}
use fast_queue.Scheduler.Worker.{Surroundings, Found, find_task}
use fast_queue.Scheduler.Views.{View, EachHolds}
use fast_queue.Scheduler.Places.{jumps, place, notified, submit_places}
use fast_queue.Scheduler.Search.{
  Source, Lists, listed, put, attempt, resume, search_lists, look_order, free_in, shared, queue_of,
}
use fast_queue.Scheduler.Missed.{put-listed, attempt_lem}
use fast_queue.Scheduler.Find.{find_task_lem}

abbrev one_if : ℕ → ℕ → ℕ
one_if p a = if p == a then 1 else 0

abbrev times : ℕ → List ℕ → ℕ
times a [] = 0
times a (p ∷ l) = one_if p a + times a l

-- How often the queues hold the task `a`
abbrev pub copies : ℕ → Lists → ℕ
copies a v = times a v.0 + total (times a) v.1

abbrev pub SameTasks : Lists → Lists → Type 0
SameTasks u v = (a : ℕ) → copies a u ≡ copies a v

abbrev pub Pool : Type 0
Pool = Quot SameTasks

abbrev pub pool : Lists → Pool
pool v = Quot.mk v

SameTasks-add : (p : ℕ) (u v : Lists) → SameTasks u v → SameTasks (p ∷ u.0, u.1) (p ∷ v.0, v.1)
SameTasks-add p u v h a = omega (arith, h a)

-- The pool with one task more
pub add : ℕ → Pool → Pool
add p =
    Quot.lift Quot-set (λ v. Quot.mk (p ∷ v.0, v.1)) (λ u v h. Quot.sound (SameTasks-add p u v h))

abbrev pub add_some : Option ℕ → Pool → Pool
add_some none b = b
add_some (some p) b = add p b

abbrev weight : Option ℕ → ℕ → ℕ
weight none a = 0
weight (some p) a = one_if p a

add_some-eq :
    (o : Option ℕ) (u v : Lists)
    → ((a : ℕ) → copies a u ≡ weight o a + copies a v)
    → pool u ≡ add_some o (pool v)
unfolding add
add_some-eq none u v h = Quot.sound (λ a. omega (arith, h a))
add_some-eq (some p) u v h = Quot.sound (λ a. omega (arith, h a))

times-append : (a : ℕ) (l r : List ℕ) → times a (l ++ r) ≡ times a l + times a r
times-append a [] r = omega arith
times-append a (p ∷ l) r = omega (arith, times-append a l r)

-- A list of the workers that loses its first task
total-tail :
    (a : ℕ) (ls : List (List ℕ)) (i t : ℕ) (ts : List ℕ)
    → get_or ls i [] ≡ t ∷ ts
    → total (times a) ls ≡ one_if t a + total (times a) (set ls i ts)
total-tail a [] i t ts e = absurd (cc)
total-tail a (l ∷ ls) zero t ts e = omega (arith, ap (times a) e)
total-tail a (l ∷ ls) (suc i) t ts e = omega (arith, total-tail a ls i t ts e)

-- A list of the workers that gets another task
total-snoc :
    (a : ℕ) (ls : List (List ℕ)) (i t : ℕ)
    → i < length ls
    → total (times a) (set ls i (get_or ls i [] ++ t ∷ [])) ≡ one_if t a + total (times a) ls
total-snoc a [] i t h = absurd (omega arith)
total-snoc a (l ∷ ls) zero t h = omega (arith, times-append a l (t ∷ []))
total-snoc a (l ∷ ls) (suc i) t h = omega (arith, total-snoc a ls i t (omega arith))

copies-put_tail :
    (a : ℕ) (x : Source) (v : Lists) (t : ℕ) (ts : List ℕ)
    → listed x v ≡ t ∷ ts
    → copies a v ≡ one_if t a + copies a (put x ts v)
copies-put_tail a shared v t ts e = omega (arith, ap (times a) e)
copies-put_tail a (queue_of i) v t ts e = omega (arith, total-tail a v.1 i t ts e)

zero_add : (n : ℕ) → 0 + n ≡ n
zero_add n = omega arith

copies-attempt :
    (a : ℕ) (b : Bool) (x : Source) (v : Lists)
    → copies a v ≡ weight (attempt b x v).0 a + copies a (attempt b x v).1
copies-attempt a false x v = omega (arith, ap (copies a) (put-listed x v))
copies-attempt a true x v = elim (attempt_lem x v) [
  | inl (e, same) ↦ sym (ap (λ r. weight r.0 a + copies a r.1) same ∙ zero_add (copies a v))
  | inr (t, ts, full, found) ↦
      copies-put_tail a x v t ts full ∙ sym (ap (λ r. weight r.0 a + copies a r.1) found)
]

copies-resume :
    (a n : ℕ) (next : Lists → Option ℕ × Lists) (r : Option ℕ × Lists)
    → n ≡ weight r.0 a + copies a r.1
    → ((v : Lists) → copies a v ≡ weight (next v).0 a + copies a (next v).1)
    → n ≡ weight (resume next r).0 a + copies a (resume next r).1
copies-resume a n next (none, v) e h = omega (arith, e, h v)
copies-resume a n next (some t, v) e h = e

copies-search_lists :
    (a : ℕ) (free : Source → Bool) (xs : List Source) (v : Lists)
    → copies a v ≡ weight (search_lists free xs v).0 a + copies a (search_lists free xs v).1
copies-search_lists a free [] v = omega arith
copies-search_lists a free (x ∷ xs) v =
    copies-resume a (copies a v) (search_lists free xs) (attempt (free x) x v)
      (copies-attempt a (free x) x v) (copies-search_lists a free xs)

-- The search of a worker takes at most one task from the queues, the one that it finds: with that task
-- the queues hold what they held before, each task as often.
pub find_task-add :
    {S : Type 0} (e : Surroundings) (id : ℕ) (s : Scheduler) (v : Lists) (w : World S)
    → View s v.0 v.1
    → length s.workers ≡ s.worker_count
    → s.worker_count < 2 ^ 31
    → id < s.worker_count
    → (r : Found) × (v' : Lists) × (find_task e id s w ≡ some (r, w))
      × View r.2 v'.0 v'.1
      × (pool v ≡ add_some r.1 (pool v'))
find_task-add e id s v w h array few lt =
    let (r, run, o) = find_task_lem e id s v w h array few lt in
    let found = search_lists (free_in e) (look_order s id) v in
    (
      r,
      found.1,
      run,
      o.view,
      add_some-eq found.0 v found.1 (λ a. copies-search_lists a (free_in e) (look_order s id) v)
          ∙ ap (λ x. add_some x (pool found.1)) (sym o.task),
    )

push_cases :
    (room : ℕ) (xs : List ℕ) (t : ℕ)
    → (Fifo.push room xs t ≡ (Status.ok, xs ++ t ∷ []))
      ⊎ (Fifo.push room xs t ≡ (Status.err_overflow, xs))
unfolding Fifo.push
push_cases room xs t = elim (Bool-cases (ltb (length xs) room)) [
  | inl e ↦ inl (rw e refl)
  | inr e ↦ inr (rw e refl)
]

-- The task of a submission that had this status
abbrev accepted : Status → ℕ → Option ℕ
accepted st p = if status_ok st then some p else none

copies-place_global :
    (a room : ℕ) (v : Lists) (p : ℕ)
    → let (st, gs') = Fifo.push room v.0 p in
      copies a (gs', v.1) ≡ weight (accepted st p) a + copies a v
copies-place_global a room v p = elim (push_cases room v.0 p) [
  | inl fits ↦ rw fits (omega (arith, times-append a v.0 (p ∷ [])))
  | inr full ↦ rw full (omega arith)
]

copies-place :
    (a : ℕ) (b : Bool) (room worker_room : ℕ) (v : Lists) (i p : ℕ)
    → i < length v.1
    → let r = place b room worker_room v.0 v.1 i p in
      copies a (r.1, r.2) ≡ weight (accepted r.0 p) a + copies a v
copies-place a true room worker_room v i p lt = copies-place_global a room v p
copies-place a false room worker_room v i p lt = elim (push_cases worker_room (get_or v.1 i []) p) [
  | inl fits ↦ rw fits (omega (arith, total-snoc a v.1 i p lt))
  | inr full ↦ rw full (copies-place_global a room v p)
]

place_in :
    (ks : List Worker) (ls : List (List ℕ)) (i : ℕ) (k : Worker)
    → EachHolds ks ls
    → get_elem? ks i ≡ some k
    → i < length ls
place_in [] ls i k h e = absurd (cc)
place_in (k' ∷ ks) [] i k h e = absurd h
place_in (k' ∷ ks) (l ∷ ls) zero k h e = omega arith
place_in (k' ∷ ks) (l ∷ ls) (suc i) k h e = omega (arith, place_in ks ls i k h.1 e)

-- `fq_scheduler_submit` on an open scheduler puts the task into the queues once, and no other, if its
-- status is FQ_OK; if not, the queues hold what they held. This is so whichever queue the task goes to.
pub submit-add :
    {S : Type 0} (s : Scheduler) (v : Lists) (task n : ℕ) (t : Task) (k : Worker) (w : World S)
    → View s v.0 v.1
    → s.shutdown_flag ≡ 0
    → w.tasks task ≡ some t
    → get_elem? s.workers (n % s.worker_count) ≡ some k
    → (st : Status) × (s' : Scheduler) × (n' : ℕ) × (v' : Lists) × (submit s (some task) n w
        ≡ some ((st, s', n'), notified st w))
      × View s' v'.0 v'.1
      × (pool v' ≡ add_some (if status_ok st then some task else none) (pool v))
submit-add s v task n t k w h open_now e ek =
    let i = n % s.worker_count in
    let r =
      place (s.enable_priority && jumps t.priority) (s.global_queue.capacity - 1)
        (k.queue.capacity - 1) v.0 v.1 i task in
    let (s', n', run, view) = submit_places s v.0 v.1 task n t k w h open_now e ek in
    (
      r.0,
      s',
      n',
      (r.1, r.2),
      run,
      view,
      add_some-eq (accepted r.0 task) (r.1, r.2) v
          (λ a.
            copies-place a (s.enable_priority && jumps t.priority) (s.global_queue.capacity - 1)
              (k.queue.capacity - 1) v i task (place_in s.workers v.1 i k h.each ek)),
    )
