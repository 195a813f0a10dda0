-- ===== src/Parallel/Ranges.antt =====
-- The ranges that `fq_scheduler_parallel_for` cuts its loop into, and the loop that a task runs.
use fast_queue.Prelude.{
  ℕ, zero, suc, ◌+◌, ◌-◌, ◌/◌, ◌%◌, ◌^◌, true, false, Option, none, some, List, [], ◌∷◌, ◌++◌, ◌==◌,
  ltb, u32, if◌then◌else◌,
}

-- A `long` x, given by x + 2^63
abbrev pub Long : Type 0
Long = ℕ

-- `a - b` of two `long` of which `b` is not the greater, and `a + n` where `n` is not negative; `none`
-- where the result is above LONG_MAX. The difference and `n` are given by themselves.
unfoldable pub long_sub : Long → Long → Option ℕ
long_sub a b = if ltb (a - b) (2 ^ 63) then some (a - b) else none

unfoldable pub long_add : Long → ℕ → Option Long
long_add a n = if ltb (a + n) (2 ^ 64) then some (a + n) else none

-- `fq_parallel_range_t` without the function and its context, which all ranges share
pub record Range : Type 0 where
  pub first : Long
  pub last : Long

abbrev pub prepend : {A : Type 0} → A → Option (List A) → Option (List A)
prepend a none = none
prepend a (some l) = some (a ∷ l)

-- `for (long i = begin; i < end; ++i) fn(i, ctx)` on fuel: the arguments of the calls; `none` where the
-- fuel runs out or `++i` overflows.
unfoldable pub loop_calls : ℕ → Long → Long → Option (List Long)
loop_calls zero i last = none
loop_calls (suc fuel) i last = elim (ltb i last) [
  | false ↦ some []
  | true ↦ elim (long_add i 1) [ none ↦ none | some j ↦ prepend i (loop_calls fuel j last) ]
]

-- `parallel_for_worker`, after it has freed its range
unfoldable pub worker_calls : ℕ → Range → Option (List Long)
worker_calls fuel r = loop_calls fuel r.first r.last

-- `if (threads == 0) threads = 1;`
abbrev pub at_least_one : ℕ → ℕ
at_least_one threads = if threads == 0 then 1 else threads

-- `last` is `end`, and `count` the length of the loop.
module _ (last count threads : ℕ) where
  abbrev pub chunk : ℕ
  chunk = count / threads

  abbrev pub remainder : ℕ
  remainder = count % threads

  -- `chunk_end` of the round `i`
  unfoldable pub chunk_end : ℕ → Long → Option Long
  chunk_end i cur = elim (long_add cur (chunk + (if ltb i (u32 remainder) then 1 else 0))) [
    | none ↦ none
    | some e ↦ some (if ltb last e then last else e)
  ]

  -- The ranges of the rounds from `i` on, of which `n` are left, when no submission fails.
  unfoldable pub ranges : ℕ → ℕ → Long → Option (List Range)
  ranges zero i cur = some []
  ranges (suc n) i cur = elim (ltb cur last) [
    | false ↦ some []
    | true ↦ elim (chunk_end i cur) [
      | none ↦ none
      | some e ↦ prepend (record { first = cur; last = e }) (ranges n (i + 1) e)
    ]
  ]

-- The ranges of a whole loop, from `count = end - begin` on
unfoldable pub cut : Long → Long → ℕ → Option (List Range)
cut first last threads = elim (long_sub last first) [
  | none ↦ none
  | some count ↦ ranges last count threads threads 0 first
]

abbrev pub join_calls : Option (List Long) → Option (List Long) → Option (List Long)
join_calls none b = none
join_calls (some l) none = none
join_calls (some l) (some l') = some (l ++ l')

-- All calls of the tasks with these ranges, one task after the other.
unfoldable pub all_calls : ℕ → List Range → Option (List Long)
all_calls fuel [] = some []
all_calls fuel (r ∷ l) = join_calls (worker_calls fuel r) (all_calls fuel l)
