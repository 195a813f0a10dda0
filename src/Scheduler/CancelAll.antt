-- ===== src/Scheduler/CancelAll.antt =====
-- What `fq_scheduler_cancel_all` does to the tasks in the queues and to the counters.
use fast_queue.Prelude.{
  ℕ, zero, suc, ◌+◌, ◌%◌, ◌^◌, ◌≤◌, ◌<◌, ◌≡◌, refl, sym, ap, subst, ◌∙◌, false, Option, some, List,
  [], ◌∷◌, ◌++◌, append_assoc, map, length, length-append, take, drop, arith, ◌==◌, if◌then◌else◌,
  ◌&&◌,
}
use fast_queue.Memory.Allocator.{Allocators}
use fast_queue.Queue.Ring.{Queue, drain_loop}
use fast_queue.Queue.Refine.{Holds}
use fast_queue.Queue.Drain.{drain_loop-take}
use fast_queue.World.Defs.{World, Event, M, ◌>>=◌, pure}
use fast_queue.Future.Laws.{bind-some}
use fast_queue.Scheduler.Defs.{Worker, Scheduler, is_idle, idle_reads}
use fast_queue.Scheduler.Cancel.{batch, destroy_tasks, drain_global, drain_workers, cancel_all}
use fast_queue.Scheduler.Views.{EachHolds}
use fast_queue.Scheduler.Waiting.{Waiting, Gone, Fewer, Gone-Fewer, destroy_tasks_total}

-- The first 256 tasks of each list, and what is left of each.
abbrev pub firsts : List (List ℕ) → List ℕ
firsts [] = []
firsts (l ∷ ls) = take 256 l ++ firsts ls

abbrev pub lefts : List (List ℕ) → List (List ℕ)
lefts [] = []
lefts (l ∷ ls) = drop 256 l ∷ lefts ls

take-drop_append : (n : ℕ) (l : List ℕ) → take n l ++ drop n l ≡ l
take-drop_append zero l = refl
take-drop_append (suc n) [] = refl
take-drop_append (suc n) (x ∷ l) = ap (λ r. x ∷ r) (take-drop_append n l)

length-drop_le : (n : ℕ) (l : List ℕ) → length (drop n l) ≤ length l
length-drop_le zero l = omega arith
length-drop_le (suc n) [] = omega arith
length-drop_le (suc n) (x ∷ l) = omega (arith, length-drop_le n l)

Gone-append : {S : Type 0} (w : World S) (l r : List ℕ) → Gone w l → Gone w r → Gone w (l ++ r)
Gone-append w [] r g h = h
Gone-append w (p ∷ l) r g h = (g.0, Gone-append w l r g.1 h)

Fewer-trans : {S : Type 0} {u v w : World S} → Fewer u v → Fewer v w → Fewer u w
Fewer-trans f g = record { still_gone = λ q e. g.still_gone q (f.still_gone q e) }

idle_reads-zero : (n m : ℕ) → idle_reads n m n m ≡ (n == 0 && m == 0)
unfolding idle_reads
idle_reads-zero n m = ground arith

module _ {S : Type 0} (al : Allocators S) where
  -- The round of the loop over the global queue, for the tasks that it drained
  abbrev round : ℕ → ℕ → Queue ℕ → List (Option ℕ) → M S (Queue ℕ × ℕ)
  round fuel c q' tasks =
      if length tasks == 0
      then pure (q', c)
      else (destroy_tasks al tasks c >>= λ (n : ℕ). drain_global al fuel q' n)

  round_more :
      (fuel c : ℕ) (q' : Queue ℕ) (o : Option ℕ) (ts : List (Option ℕ)) (w : World S)
      → round fuel c q' (o ∷ ts) w
        ≡ (destroy_tasks al (o ∷ ts) c >>= λ (n : ℕ). drain_global al fuel q' n) w
  round_more fuel c q' o ts w = rw (nonzero (length ts)) refl
    where
      nonzero : (n : ℕ) → (suc n == 0) ≡ false
      nonzero n = ground arith

  drain_global_total :
      (fuel : ℕ) (gs r : List ℕ) (c : ℕ) (q : Queue ℕ) (w : World S)
      → Holds q gs
      → length gs < fuel
      → c < 2 ^ 32
      → Waiting w (gs ++ r)
      → (q' : Queue ℕ) × (w' : World S) × (drain_global al fuel q c w
          ≡ some ((q', (c + length gs) % 2 ^ 32), w'))
        × Holds q' []
        × Gone w' gs
        × Waiting w' r
        × Fewer w w'
  unfolding drain_global
  drain_global_total zero gs r c q w h lt small ws = absurd (omega arith)
  drain_global_total (suc fuel) [] r c q w h lt small ws =
      let d = drain_loop-take 256 [] h in
      let q' = (drain_loop batch q).1 in
      (
        q',
        w,
        ap (λ tasks. round fuel c q' tasks w) d.0
            ∙ ap (λ (n : ℕ). some ((q', n), w)) {x = c} {y = (c + 0) % 2 ^ 32} (omega arith),
        d.1,
        tt,
        ws,
        record { still_gone = λ p e. e },
      )
  drain_global_total (suc fuel) (x ∷ xs) r c q w h lt small ws =
      let d = drain_loop-take 256 (x ∷ xs) h in
      let q1 = (drain_loop batch q).1 in
      let front = take 256 (x ∷ xs) in
      let back = drop 255 xs in
      let (w1, run, gone, wait, fewer) = destroy_tasks_total al front (back ++ r) c w small (
        subst (Waiting w)
          (ap (λ l. l ++ r) (sym (take-drop_append 256 (x ∷ xs))) ∙ append_assoc front back r)
          ws) in
      let (q2, w2, runs, held, gone', wait', fewer') =
        drain_global_total fuel back r ((c + length front) % 2 ^ 32) q1 w1 d.1
          (omega (arith, length-drop_le 255 xs)) (omega arith) wait in
      (
        q2,
        w2,
        ap (λ tasks. round fuel c q1 tasks w) d.0
            ∙ round_more fuel c q1 (some x) (map some (take 255 xs)) w
            ∙ bind-some (destroy_tasks al (map some front) c) (λ (n : ℕ). drain_global al fuel q1 n)
                w run
            ∙ runs
            ∙ ap (λ (n : ℕ). some ((q2, n), w2))
                {x = ((c + length front) % 2 ^ 32 + length back) % 2 ^ 32}
                {y = (c + length (x ∷ xs)) % 2 ^ 32}
                (omega
                  (arith, length-append front back, ap length (take-drop_append 256 (x ∷ xs)))),
        held,
        subst (Gone w2) (take-drop_append 256 (x ∷ xs))
            (Gone-append w2 front back (Gone-Fewer front w1 w2 fewer' gone) gone'),
        wait',
        Fewer-trans fewer fewer',
      )

  drain_workers_total :
      (ks : List Worker) (ls : List (List ℕ)) (c : ℕ) (w : World S)
      → EachHolds ks ls
      → c < 2 ^ 32
      → Waiting w (firsts ls)
      → (ks' : List Worker) × (w' : World S) × (drain_workers al ks c w
          ≡ some ((ks', (c + length (firsts ls)) % 2 ^ 32), w'))
        × EachHolds ks' (lefts ls)
        × Gone w' (firsts ls)
        × Fewer w w'
  unfolding drain_workers
  drain_workers_total [] [] c w h small ws = (
    [],
    w,
    ap (λ (n : ℕ). some (([], n), w)) {x = c} {y = (c + 0) % 2 ^ 32} (omega arith),
    tt,
    tt,
    record { still_gone = λ p e. e },
  )
  drain_workers_total [] (l ∷ ls) c w h small ws = absurd h
  drain_workers_total (k ∷ ks) [] c w h small ws = absurd h
  drain_workers_total (k ∷ ks) (l ∷ ls) c w h small ws =
      let d = drain_loop-take 256 l h.0 in
      let front = take 256 l in
      let q1 = (drain_loop batch k.queue).1 in
      let (w1, run, gone, wait, fewer) = destroy_tasks_total al front (firsts ls) c w small ws in
      let (ks', w2, runs, each, gone', fewer') =
        drain_workers_total ks ls ((c + length front) % 2 ^ 32) w1 h.1 (omega arith) wait in
      (
        record k { queue = q1 } ∷ ks',
        w2,
        ap (λ tasks. (destroy_tasks al tasks c >>= after k ks q1) w) d.0
            ∙ bind-some (destroy_tasks al (map some front) c) (after k ks q1) w run
            ∙ bind-some (drain_workers al ks ((c + length front) % 2 ^ 32)) _ w1 runs
            ∙ ap (λ (n : ℕ). some ((record k { queue = q1 } ∷ ks', n), w2))
                {x = ((c + length front) % 2 ^ 32 + length (firsts ls)) % 2 ^ 32}
                {y = (c + length (front ++ firsts ls)) % 2 ^ 32}
                (omega (arith, length-append front (firsts ls))),
        (d.1, each),
        Gone-append w2 front (firsts ls) (Gone-Fewer front w1 w2 fewer' gone) gone',
        Fewer-trans fewer fewer',
      )
    where
      after : Worker → List Worker → Queue ℕ → ℕ → M S (List Worker × ℕ)
      after j js q n = drain_workers al js n >>= λ r. pure (record j { queue = q } ∷ r.0, r.1)

  -- The scheduler after the call.
  abbrev pub canceled_scheduler : Scheduler → Queue ℕ → List Worker → ℕ → Scheduler
  canceled_scheduler s q ks n = record s {
    shutdown_flag = 1;
    global_queue = q;
    workers = ks;
    tasks_canceled = n;
  }

  -- `fq_scheduler_cancel_all` returns, if the tasks that it destroys are there with their futures, and no
  -- two are the same: those of the global queue `gs` and the first 256 of each worker's queue. They are
  -- gone then, and counted as canceled, modulo 2^32; the global queue is empty, and each worker's queue holds what is
  -- left. The scheduler is shut down. But the counts of pending and active tasks are what they were, and
  -- the scheduler is idle only if both were 0.
  pub cancel_all_total :
      (s : Scheduler) (gs : List ℕ) (ls : List (List ℕ)) (w : World S)
      → Holds s.global_queue gs
      → EachHolds s.workers ls
      → length gs < s.global_queue.capacity
      → s.tasks_canceled < 2 ^ 32
      → Waiting w (gs ++ firsts ls)
      → (q : Queue ℕ) × (ks : List Worker) × (w' : World S) × (cancel_all al s w
          ≡ some (
            canceled_scheduler s q ks ((s.tasks_canceled + length (gs ++ firsts ls)) % 2 ^ 32),
            record w' { events = w'.events ++ Event.woke_workers ∷ [] },
          ))
        × Holds q []
        × EachHolds ks (lefts ls)
        × Gone w' (gs ++ firsts ls)
        × (is_idle (some (canceled_scheduler s q ks 0))
            ≡ (s.tasks_pending == 0 && s.tasks_active == 0))
  unfolding cancel_all is_idle
  cancel_all_total s gs ls w h each room small ws =
      let (q, w1, run, held, gone, wait, fewer) =
        drain_global_total s.global_queue.capacity gs (firsts ls) s.tasks_canceled s.global_queue w
          h room small ws in
      let (ks, w2, runs, left, gone', fewer') =
        drain_workers_total s.workers ls ((s.tasks_canceled + length gs) % 2 ^ 32) w1 each
          (omega arith) wait in
      (
        q,
        ks,
        w2,
        bind-some (drain_global al s.global_queue.capacity s.global_queue s.tasks_canceled) _ w run
            ∙ bind-some (drain_workers al s.workers ((s.tasks_canceled + length gs) % 2 ^ 32)) _ w1
                runs
            ∙ ap
                (λ (n : ℕ). some (
                  canceled_scheduler s q ks n,
                  record w2 { events = w2.events ++ Event.woke_workers ∷ [] },
                ))
                {x = ((s.tasks_canceled + length gs) % 2 ^ 32 + length (firsts ls)) % 2 ^ 32}
                {y = (s.tasks_canceled + length (gs ++ firsts ls)) % 2 ^ 32}
                (omega (arith, length-append gs (firsts ls))),
        held,
        left,
        Gone-append w2 gs (firsts ls) (Gone-Fewer gs w1 w2 fewer' gone) gone',
        idle_reads-zero s.tasks_pending s.tasks_active,
      )
