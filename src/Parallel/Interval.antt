-- ===== src/Parallel/Interval.antt =====
-- The loop of one task of a parallel loop, and sums and differences of two `long` that do not overflow.
use fast_queue.Prelude.{
  ℕ, zero, suc, ◌+◌, ◌-◌, ◌^◌, ◌≤◌, ◌<◌, ◌≡◌, refl, ap, false, some, List, [], ◌∷◌, ◌++◌, ltb,
  arith, lt→ltb,
}
use fast_queue.Parallel.Ranges.{long_sub, long_add, prepend, loop_calls}

-- The `n` numbers from `i` on
abbrev pub interval : ℕ → ℕ → List ℕ
interval i zero = []
interval i (suc n) = i ∷ interval (i + 1) n

pub interval-append :
    (n m i middle : ℕ) → i + n ≡ middle → interval i n ++ interval middle m ≡ interval i (n + m)
interval-append zero m i middle e =
    let same : i ≡ middle = omega arith in
    let none_yet : 0 + m ≡ m = omega arith in rw (same, none_yet) refl
interval-append (suc n) m i middle e =
    rw (one_more n m) (ap (λ l. i ∷ l) (interval-append n m (i + 1) middle (omega arith)))
  where
    one_more : (a b : ℕ) → suc a + b ≡ suc (a + b)
    one_more a b = omega arith

pub not-ltb : (a b : ℕ) → b ≤ a → ltb a b ≡ false
not-ltb a b h = ground arith

pub long_add_lem : (a n : ℕ) → a + n < 2 ^ 64 → long_add a n ≡ some (a + n)
unfolding long_add
long_add_lem a n h = ground arith

pub long_sub_lem : (a b : ℕ) → a - b < 2 ^ 63 → long_sub a b ≡ some (a - b)
unfolding long_sub
long_sub_lem a b h = ground arith

-- The loop makes its calls in order and ends by its test, given fuel for each of them and the test.
pub loop_calls-interval :
    (n fuel i last : ℕ)
    → i + n ≡ last
    → last < 2 ^ 64
    → n < fuel
    → loop_calls fuel i last ≡ some (interval i n)
unfolding loop_calls
loop_calls-interval n zero i last e small more = absurd (omega arith)
loop_calls-interval zero (suc fuel) i last e small more =
    rw (not-ltb i last (omega arith), loop_calls) refl
loop_calls-interval (suc n) (suc fuel) i last e small more =
    rw (lt→ltb i last (omega arith), loop_calls)
      (rw (long_add_lem i 1 (omega arith), loop_calls)
        (ap (prepend i)
          (loop_calls-interval n fuel (i + 1) last (omega arith) small (omega arith))))
