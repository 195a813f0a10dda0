-- ===== src/Parallel/Submit.antt =====
-- `fq_scheduler_parallel_for` and `fq_thread_pool_parallel_for`: the submission of the ranges.
use fast_queue.Prelude.{
  ℕ, zero, suc, ◌+◌, true, false, Option, none, some, List, [], ◌∷◌, ◌++◌, ltb, not, if◌then◌else◌,
}
use fast_queue.Types.{Status, status_ok, Ptr}
use fast_queue.Memory.Allocator.{Allocators, default_allocator, fq_alloc, fq_free}
use fast_queue.World.Defs.{Event, M, ◌>>=◌, ◌>>◌, pure, emit}
use fast_queue.Scheduler.Defs.{Scheduler, Stats, stats}
use fast_queue.Scheduler.Submit.{submit_fn}
use fast_queue.Parallel.Ranges.{Long, long_sub, Range, at_least_one, chunk_end}

-- `sizeof(fq_parallel_range_t)`
abbrev pub sizeof_range : ℕ
sizeof_range = 32

-- What a loop returns: the status, the scheduler, the thread's turn, and the ranges that were submitted
-- with the addresses that their tasks have.
abbrev pub Started : Type 0
Started = Status × Scheduler × ℕ × List (ℕ × Range)

module _ {S : Type 0} (al : Allocators S) (worker : ℕ) where
  abbrev pub alloc_range : M S Ptr
  alloc_range w =
      let (p, h) = fq_alloc al (some default_allocator) sizeof_range w.heap in
      some (p, record w { heap = h })

  abbrev pub free_range : ℕ → M S (Unit {0})
  free_range p w =
      some (tt, record w { heap = fq_free al (some default_allocator) (some p) w.heap })

  -- What follows the submission: the range is freed if that failed.
  unfoldable pub after_submit : ℕ → Range → List (ℕ × Range) → Status × Scheduler × ℕ → M S Started
  after_submit a range started r =
      if not (status_ok r.0)
      then (do free_range a; pure (r.0, r.1, r.2, started))
      else pure (r.0, r.1, r.2, started ++ (a, range) ∷ [])

  -- What follows the allocation of the range; `worker` is the address of `parallel_for_worker`.
  unfoldable pub submit_range : Scheduler → ℕ → List (ℕ × Range) → Range → Ptr → M S Started
  submit_range s next_worker started range none = pure (Status.err_nomem, s, next_worker, started)
  submit_range s next_worker started range (some a) = do
    r ← submit_fn al s (some worker) a next_worker
    after_submit a range started r

  -- One round of the loop: the range is allocated and submitted.
  unfoldable pub start_range : Scheduler → ℕ → List (ℕ × Range) → Range → M S Started
  start_range s next_worker started range = do
    p ← alloc_range
    submit_range s next_worker started range p

  -- What is undefined behaviour
  abbrev pub undefined : {A : Type 0} → M S A
  undefined w = none

  -- `last` is `end`, and `count` the length of the loop.
  module _ (last count threads : ℕ) where
    -- The loop of `fq_scheduler_parallel_for`, with `n` rounds left, from the round `i` and `cur` on
    unfoldable pub parallel_loop : ℕ → ℕ → Long → Started → M S Started
    parallel_loop zero i cur r = pure r
    parallel_loop (suc n) i cur r = elim (ltb cur last) [
      | false ↦ pure r
      | true ↦ elim (chunk_end last count threads i cur) [
        | none ↦ undefined
        | some e ↦ do
          x ← start_range r.1 r.2 r.3 (record { first = cur; last = e })
          if status_ok x.0 then parallel_loop n (i + 1) e x else pure x
      ]
    ]

  -- The submissions of a whole loop, from `count = end - begin` on
  unfoldable pub start_loop : Long → Long → ℕ → Started → M S Started
  start_loop first last threads r = elim (long_sub last first) [
    | none ↦ undefined
    | some count ↦ parallel_loop last count threads threads 0 first r
  ]

  -- `fq_scheduler_parallel_for` and `fq_thread_pool_parallel_for`; `first` and `last` are its `begin` and
  -- `end`, and `garbage` is what its `stats` holds before it is filled in.
  unfoldable pub parallel_for :
      Stats → Option Scheduler → Long → Long → Ptr → ℕ → M S (Status × Option Started)
  parallel_for garbage none first last fn next_worker = pure (Status.err_inval, none)
  parallel_for garbage (some s) first last none next_worker = pure (Status.err_inval, none)
  parallel_for garbage (some s) first last (some fn) next_worker =
      let threads = at_least_one (stats (some s) garbage).thread_count in
      if not (ltb first last) then pure (Status.err_inval, none) else (do
        r ← start_loop first last threads (Status.ok, s, next_worker, [])
        (if status_ok r.0 then emit Event.waited_idle else pure tt)
        pure (r.0, some r))
