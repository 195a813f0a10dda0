-- ===== src/Parallel/Split.antt =====
-- The ranges of a parallel loop are a partition of it.
use native.Mathlib.Nat.{div-add-mod, mod-lt, mul-le-mul_left, mod-eq_of_lt}
use fast_queue.Prelude.{
  ℕ, zero, suc, ◌+◌, ◌-◌, ◌*◌, ◌/◌, ◌%◌, ◌^◌, ◌≤◌, ◌<◌, min, ◌≡◌, refl, sym, ap, ap₂, ◌∙◌, some,
  List, [], ◌∷◌, ◌++◌, ltb, u32, if◌then◌else◌, arith, dec_lt, ℕ_discrete, lt→ltb,
}
use fast_queue.Parallel.Ranges.{
  Range, prepend, worker_calls, chunk, remainder, chunk_end, ranges, cut, join_calls, all_calls,
}
use fast_queue.Parallel.Interval.{
  interval, interval-append, not-ltb, long_add_lem, long_sub_lem, loop_calls-interval,
}

-- No task is made for nothing.
abbrev pub AllNonempty : List Range → Type 0
AllNonempty [] = Unit
AllNonempty (r ∷ l) = (r.first < r.last) × AllNonempty l

chunks_next :
    (q i r : ℕ) → q * (i + 1) + min (i + 1) r ≡ q * i + min i r + (q + (if ltb i r then 1 else 0))
chunks_next q i r = elim (dec_lt i r) [
  | yes p ↦ rw (lt→ltb i r p) (omega (arith, one_more q i))
  | no p ↦ rw (not-ltb i r (omega arith)) (omega (arith, one_more q i))
]
  where
    one_more : (a b : ℕ) → a * (b + 1) ≡ a * b + a
    one_more a b = grind arith

module _ (first last count threads fuel : ℕ) (some_threads : 0 < threads)
    (threads_fit : threads < 2 ^ 32) (length_eq : first + count ≡ last) (last_fits : last < 2 ^ 64)
    (enough : count < fuel) where
  -- How far the first `i` chunks reach.
  abbrev reach : ℕ → ℕ
  reach i = first + (chunk last count threads * i + min i (remainder last count threads))

  reach_last : reach threads ≡ last
  reach_last = omega (
    arith,
    div-add-mod count threads,
    mod-lt count some_threads,
    mul_comm' threads (chunk last count threads),
  )
    where
      mul_comm' : (a b : ℕ) → a * b ≡ b * a
      mul_comm' a b = grind arith

  reach_bounded : (i : ℕ) → i ≤ threads → reach i ≤ last
  reach_bounded i le = omega (arith, reach_last, mul-le-mul_left (chunk last count threads) le)

  remainder_fits : u32 (remainder last count threads) ≡ remainder last count threads
  remainder_fits = mod-eq_of_lt (omega (arith, mod-lt count some_threads))

  reach_next :
      (i : ℕ)
      → reach i
          + (chunk last count threads
              + (if ltb i (u32 (remainder last count threads)) then 1 else 0))
        ≡ reach (i + 1)
  reach_next i =
      rw remainder_fits
        (omega (arith, chunks_next (chunk last count threads) i (remainder last count threads)))

  -- A sum `cur + chunk` never overflows, and is never above the end of the loop.
  chunk_end-reach :
      (i : ℕ) → i < threads → chunk_end last count threads i (reach i) ≡ some (reach (i + 1))
  unfolding chunk_end
  chunk_end-reach i lt =
      rw
        (
          long_add_lem (reach i)
              (chunk last count threads
                + (if ltb i (u32 (remainder last count threads)) then 1 else 0))
              (omega (arith, reach_next i, reach_bounded (i + 1) (omega arith))),
          chunk_end,
        )
        (ap (λ (e : ℕ). some (if ltb last e then last else e)) (reach_next i)
          ∙ rw (not-ltb last (reach (i + 1)) (reach_bounded (i + 1) (omega arith))) refl)

  -- What is left to share out, where the chunks of the division are empty
  shares_left :
      (i : ℕ)
      → chunk last count threads ≡ 0
      → reach i < last
      → i < u32 (remainder last count threads)
  shares_left i none_each more = rw remainder_fits (
      omega (
        arith,
        div-add-mod count threads,
        ap (λ (q : ℕ). threads * q) none_each,
        ap (λ (q : ℕ). q * i) none_each,
      ))

  -- As long as calls are left a round takes some.
  grows : (i : ℕ) → reach i < last → reach i < reach (i + 1)
  grows i more = elim (ℕ_discrete (chunk last count threads) 0) [
    | no some_each ↦ omega (arith, reach_next i)
    | yes none_each ↦
        let one : ◌≡◌ {A = ℕ} (if ltb i (u32 (remainder last count threads)) then 1 else 0) 1 =
          rw (lt→ltb i (u32 (remainder last count threads)) (shares_left i none_each more)) refl in
        omega (arith, reach_next i, one)
  ]

  step_up : (i : ℕ) → reach i ≤ reach (i + 1)
  step_up i = omega (arith, reach_next i)

  -- The ranges from the round `i` on, and their calls: those of the loop from there on.
  abbrev Rest : ℕ → ℕ → Type 0
  Rest n i =
      (rs : List Range) × (ranges last count threads n i (reach i) ≡ some rs)
      × (all_calls fuel rs ≡ some (interval (reach i) (last - reach i)))
      × AllNonempty rs

  nothing_left :
      (n i : ℕ) → last ≤ reach i → ranges last count threads n i (reach i) ≡ some [] → Rest n i
  unfolding all_calls
  nothing_left n i over e = (
    [],
    e,
    ap (λ (k : ℕ). some (interval (reach i) k)) {x = 0} {y = last - reach i} (omega arith),
    tt,
  )

  one_range :
      (i : ℕ)
      → i < threads
      → worker_calls fuel (record { first = reach i; last = reach (i + 1) })
        ≡ some (interval (reach i) (reach (i + 1) - reach i))
  unfolding worker_calls
  one_range i lt =
      loop_calls-interval (reach (i + 1) - reach i) fuel (reach i) (reach (i + 1))
        (omega (arith, step_up i)) (omega (arith, reach_bounded (i + 1) (omega arith)))
        (omega (arith, reach_bounded (i + 1) (omega arith)))

  joined :
      (i : ℕ)
      → i < threads
      → interval (reach i) (reach (i + 1) - reach i)
          ++ interval (reach (i + 1)) (last - reach (i + 1))
        ≡ interval (reach i) (last - reach i)
  joined i lt =
      interval-append (reach (i + 1) - reach i) (last - reach (i + 1)) (reach i) (reach (i + 1))
        (omega (arith, step_up i))
      ∙ ap (interval (reach i)) {x = reach (i + 1) - reach i + (last - reach (i + 1))}
          {y = last - reach i} (omega (arith, step_up i, reach_bounded (i + 1) (omega arith)))

  ranges_from : (n i : ℕ) → i + n ≡ threads → Rest n i
  unfolding ranges all_calls
  ranges_from zero i e =
      let there : i ≡ threads = omega arith in
      nothing_left zero i (omega (arith, ap reach there, reach_last)) refl
  ranges_from (suc n) i e = elim (dec_lt (reach i) last) [
    | no over ↦
        nothing_left (suc n) i (omega arith)
          (rw (not-ltb (reach i) last (omega arith), ranges) refl)
    | yes more ↦
        let (rs, cuts, calls, nonempty) = ranges_from n (i + 1) (omega arith) in
        let this : Range = record { first = reach i; last = reach (i + 1) } in
        (
          this ∷ rs,
          rw (lt→ltb (reach i) last more, ranges)
              (rw (chunk_end-reach i (omega arith), ranges) (ap (prepend this) cuts)),
          ap₂ join_calls (one_range i (omega arith)) calls
              ∙ ap (λ l. some l) (joined i (omega arith)),
          (grows i more, nonempty),
        )
  ]

  whole : Rest threads 0
  whole = ranges_from threads 0 (omega arith)

-- A parallel loop from `first` to `last` on fewer than 2^32 threads, whose length is a `long`: no sum of
-- its cut overflows, and the tasks with the ranges, given fuel for the length, end and make the calls
-- of the plain loop: each index from the first to the last but one is in exactly one range, and in
-- order. No range is empty.
pub ranges_partition :
    (first last threads fuel : ℕ)
    → 0 < threads
    → threads < 2 ^ 32
    → first < last
    → last < 2 ^ 64
    → last - first < 2 ^ 63
    → last - first < fuel
    → (rs : List Range) × (cut first last threads ≡ some rs)
      × (all_calls fuel rs ≡ some (interval first (last - first)))
      × AllNonempty rs
unfolding cut
ranges_partition first last threads fuel some_threads fit more last_fits short enough =
    let count : ℕ = last - first in
    let (rs, cuts, calls, nonempty) =
      whole first last count threads fuel some_threads fit (omega arith) last_fits enough in
    let start : first + (count / threads * 0 + min 0 (count % threads)) ≡ first =
      omega (arith, none_yet (count / threads)) in
    (
      rs,
      rw (long_sub_lem last first short, cut)
          (ap (ranges last count threads threads 0) (sym start) ∙ cuts),
      calls ∙ ap (λ (c : ℕ). some (interval c (last - c))) start,
      nonempty,
    )
  where
    none_yet : (q : ℕ) → q * 0 ≡ 0
    none_yet q = omega arith
