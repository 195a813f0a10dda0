-- ===== src/Parallel/Started.antt =====
-- What `fq_scheduler_parallel_for` has submitted when its loop is over, whichever submission fails.
use fast_queue.Prelude.{
  ℕ, zero, suc, ◌+◌, ◌<◌, ◌≡◌, ◌⊎◌, refl, sym, subst, ap, ◌∙◌, true, false, inl, inr, Bool-cases,
  Option-cases, Option, none, some, List, [], ◌∷◌, ◌++◌, append_assoc, append-nil, ltb,
  if◌then◌else◌, length, take, arith,
}
use fast_queue.Types.{Status, status_ok}
use fast_queue.Memory.Allocator.{Allocators}
use fast_queue.World.Defs.{World, M, ◌>>=◌, pure}
use fast_queue.Future.Laws.{bind-some}
use fast_queue.Parallel.Ranges.{Range, chunk_end, ranges, prepend}
use fast_queue.Parallel.Submit.{Started, start_range, parallel_loop}
use fast_queue.Parallel.Returns.{Staffed, ranges_of, start_range_total}

-- A loop that was to submit the ranges `rs` ended: all were submitted if the status is FQ_OK, and
-- otherwise some of the first.
abbrev pub Progress : List Range → Started → Started → Type 0
Progress rs x x' =
    ((x'.0 ≡ Status.ok) × (ranges_of x' ≡ ranges_of x ++ rs))
    ⊎ ((status_ok x'.0 ≡ false)
        × (k : ℕ) × (k < length rs)
        × (ranges_of x' ≡ ranges_of x ++ take k rs))

pub prepend-inv :
    {A : Type 0} (a : A) (o : Option (List A)) (rs : List A)
    → prepend a o ≡ some rs
    → (l : List A) × (o ≡ some l) × (rs ≡ a ∷ l)
prepend-inv a none rs e = absurd (cc)
prepend-inv a (some l) rs e = (l, refl, cc)

pub none-ne-some : {A : Type 0} {a : A} → none ≡ some a → ⊥
none-ne-some e = cc

no_ranges : (rs : List Range) → ◌≡◌ {A = Option (List Range)} (some []) (some rs) → rs ≡ []
no_ranges rs e = cc

-- Nothing was left to submit.
Progress-none : (x : Started) (rs : List Range) → x.0 ≡ Status.ok → rs ≡ [] → Progress rs x x
Progress-none x rs ok e =
    inl (ok, sym (append-nil (ranges_of x)) ∙ ap (λ (l : List Range). ranges_of x ++ l) (sym e))

-- One range and what follows it
Progress-next :
    (x x1 x' : Started) (range : Range) (rest : List Range)
    → ranges_of x1 ≡ ranges_of x ++ range ∷ []
    → Progress rest x1 x'
    → Progress (range ∷ rest) x x'
Progress-next x x1 x' range rest e (inl (ok, all)) =
    inl (ok, all ∙ ap (λ l. l ++ rest) e ∙ append_assoc (ranges_of x) (range ∷ []) rest)
Progress-next x x1 x' range rest e (inr (failed, k, less, some_of)) = inr (
  failed,
  suc k,
  omega arith,
  some_of ∙ ap (λ l. l ++ take k rest) e ∙ append_assoc (ranges_of x) (range ∷ []) (take k rest),
)

module _ {S : Type 0} (al : Allocators S) (worker last count threads : ℕ) where
  loop_over :
      (n i cur : ℕ) (x : Started) (w : World S)
      → ltb cur last ≡ false
      → parallel_loop al worker last count threads (suc n) i cur x w ≡ some (x, w)
  unfolding parallel_loop
  loop_over n i cur x w e = rw (e, parallel_loop) refl

  -- What follows a round
  abbrev next_round : ℕ → ℕ → ℕ → Started → M S Started
  next_round n i e x =
      if status_ok x.0 then parallel_loop al worker last count threads n (i + 1) e x else pure x

  next_round-ok :
      (n i e : ℕ) (x : Started) (w : World S)
      → x.0 ≡ Status.ok
      → next_round n i e x w ≡ parallel_loop al worker last count threads n (i + 1) e x w
  next_round-ok n i e x w ok = rw (ap status_ok ok) refl

  next_round-failed :
      (n i e : ℕ) (x : Started) (w : World S)
      → status_ok x.0 ≡ false
      → next_round n i e x w ≡ some (x, w)
  next_round-failed n i e x w failed = rw failed refl

  loop_round :
      (n i cur e : ℕ) (x : Started) (w : World S)
      → ltb cur last ≡ true
      → chunk_end last count threads i cur ≡ some e
      → parallel_loop al worker last count threads (suc n) i cur x w
        ≡ (start_range al worker x.1 x.2 x.3 (record { first = cur; last = e })
              >>= next_round n i e)
            w
  unfolding parallel_loop
  loop_round n i cur e x w more ends = rw (more, parallel_loop) (rw (ends, parallel_loop) refl)

  ranges_over :
      (n i cur : ℕ) → ltb cur last ≡ false → ranges last count threads (suc n) i cur ≡ some []
  unfolding ranges
  ranges_over n i cur e = rw (e, ranges) refl

  ranges_round :
      (n i cur e : ℕ)
      → ltb cur last ≡ true
      → chunk_end last count threads i cur ≡ some e
      → ranges last count threads (suc n) i cur
        ≡ prepend (record { first = cur; last = e }) (ranges last count threads n (i + 1) e)
  unfolding ranges
  ranges_round n i cur e more ends = rw (more, ranges) (rw (ends, ranges) refl)

  ranges_undefined :
      (n i cur : ℕ)
      → ltb cur last ≡ true
      → chunk_end last count threads i cur ≡ none
      → ranges last count threads (suc n) i cur ≡ none
  unfolding ranges
  ranges_undefined n i cur more ends = rw (more, ranges) (rw (ends, ranges) refl)

  abbrev pub LoopReturns : ℕ → ℕ → ℕ → List Range → Started → World S → Type 0
  LoopReturns n i cur rs x w =
      (x' : Started) × (w' : World S) × (parallel_loop al worker last count threads n i cur x w
        ≡ some (x', w'))
      × Progress rs x x'

  pub loop_total :
      (n i cur : ℕ) (rs : List Range) (x : Started) (w : World S)
      → ranges last count threads n i cur ≡ some rs
      → Staffed x.1
      → x.0 ≡ Status.ok
      → LoopReturns n i cur rs x w
  unfolding ranges parallel_loop
  loop_total zero i cur rs x w cuts h ok = (x, w, refl, Progress-none x rs ok (no_ranges rs cuts))
  loop_total (suc n) i cur rs x w cuts h ok = elim (Bool-cases (ltb cur last)) [
    | inr over ↦ (
      x,
      w,
      loop_over n i cur x w over,
      Progress-none x rs ok (no_ranges rs (sym (ranges_over n i cur over) ∙ cuts)),
    )
    | inl more ↦ elim (Option-cases (chunk_end last count threads i cur)) [
      | inl overflow ↦ absurd (none-ne-some (sym (ranges_undefined n i cur more overflow) ∙ cuts))
      | inr (e, ends) ↦
          let this : Range = record { first = cur; last = e } in
          let (rest, cuts', rs_eq) =
            prepend-inv this (ranges last count threads n (i + 1) e) rs
              (sym (ranges_round n i cur e more ends) ∙ cuts) in
          let (x1, w1, run, staffed, made) = start_range_total al worker this x w h in
          let opened =
            loop_round n i cur e x w more ends
            ∙ bind-some (start_range al worker x.1 x.2 x.3 this) (next_round n i e) w run in
          elim made [
            | inl (fine, one_more) ↦
                let (x', w', runs, progress) =
                  loop_total n (i + 1) e rest x1 w1 cuts' staffed fine in
                (
                  x',
                  w',
                  opened ∙ next_round-ok n i e x1 w1 fine ∙ runs,
                  subst (λ l. Progress l x x') (sym rs_eq)
                      (Progress-next x x1 x' this rest one_more progress),
                )
            | inr (failed, same) ↦ (
              x1,
              w1,
              opened ∙ next_round-failed n i e x1 w1 failed,
              subst (λ l. Progress l x x1) (sym rs_eq)
                  (inr (failed, 0, omega arith, same ∙ sym (append-nil (ranges_of x)))),
            )
          ]
    ]
  ]
