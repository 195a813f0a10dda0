-- ===== src/Queue/Drain.antt =====
-- `fq_queue_size`, `fq_queue_empty`, `fq_queue_try_pop` and `fq_queue_drain` against the queue's
-- contents.
use fast_queue.Prelude.{
  ℕ, zero, suc, ◌≤◌, ◌≡◌, refl, ap, ap₂, ◌∙◌, Option, none, some, List, [], ◌∷◌, map, arith, length,
  take, drop, true, false, ◌==◌,
}
use fast_queue.Types.{Status}
use fast_queue.Queue.Fifo
use fast_queue.Queue.Ring.{
  Queue, pop_task, try_pop_task, size, empty, queue_capacity, drain_loop, drain,
}
use fast_queue.Queue.Valid.{size_count}
use fast_queue.Queue.Refine.{Holds, count-length, pop_refines}

module _ {T : Type 0} where
  -- `fq_queue_size` is the number of tasks held, it stays within `fq_queue_capacity`, and
  -- `fq_queue_empty` tells whether it is 0.
  pub size-length :
      {q : Queue T} (xs : List T)
      → Holds q xs
      → (size (some q) ≡ length xs)
        × (length xs ≤ queue_capacity (some q))
        × (empty (some q) ≡ (length xs == 0))
  unfolding size empty queue_capacity
  size-length {q} xs h =
      (same, omega (arith, count-length xs h, h.valid), ap (λ (n : ℕ). n == 0) same)
    where
      same : size (some q) ≡ length xs
      same = size_count h.valid ∙ count-length xs h

  -- Where the lock is taken, `fq_queue_try_pop` does what `fq_queue_pop` does; else it reports a busy
  -- queue and changes nothing.
  pub try_pop-pop :
      (q : Queue T) (task : Option T)
      → (try_pop_task true q task ≡ pop_task q task)
        × (try_pop_task false q task ≡ (Status.err_busy, task, q))
  unfolding try_pop_task pop_task
  try_pop-pop q task = (refl, refl)

  -- The loop of `fq_queue_drain` takes the oldest tasks, in order, and leaves the rest.
  pub drain_loop-take :
      (n : ℕ) {q : Queue T} (xs : List T)
      → Holds q xs
      → ((drain_loop n q).0 ≡ map some (take n xs)) × Holds (drain_loop n q).1 (drop n xs)
  unfolding drain_loop Fifo.pop
  drain_loop-take zero xs h = (refl, h)
  drain_loop-take (suc n) {q} [] h = let p = pop_refines [] none h in rw (p.0) (refl, p.2)
  drain_loop-take (suc n) {q} (x ∷ xs) h =
      let p = pop_refines (x ∷ xs) none h in
      let ih = drain_loop-take n xs p.2 in rw (p.0) (ap₂ ◌∷◌ p.1 ih.0, ih.1)

  -- `fq_queue_drain` on a queue and an out array that are not NULL takes the `max` oldest tasks, or
  -- all if there are fewer, in order, and leaves the rest; with a NULL array it takes none.
  pub drain-take : (n : ℕ) {q : Queue T} (xs : List T) → Holds q xs → record {
    out : (drain (some q) true n).0 ≡ map some (take n xs);
    rest : (q' : Queue T) × ((drain (some q) true n).1 ≡ some q') × Holds q' (drop n xs);
    no_array : drain (some q) false n ≡ ([], some q);
  }
  unfolding drain
  drain-take zero {q} xs h = record { out = refl; rest = (q, refl, h); no_array = refl }
  drain-take (suc n) {q} xs h =
      let p = drain_loop-take (suc n) xs h in
      record {
        out = ground (arith, p.0);
        rest = ((drain_loop (suc n) q).1, ground arith, p.1);
        no_array = refl;
      }
