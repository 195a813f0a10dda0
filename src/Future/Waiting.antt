-- ===== src/Future/Waiting.antt =====
-- How long the waits take, and what they return.
use fast_queue.Prelude.{
  ℕ, zero, suc, ◌+◌, ◌≤◌, ◌<◌, ◌≡◌, ◌≢◌, refl, ap, ◌∙◌, Bool, true, false, Option, none, some, List,
  [], ◌∷◌, ◌++◌, ◌==◌, not, arith, length, length-append, replicate, dec_lt,
}
use fast_queue.Types.{Status}
use fast_queue.World.Defs.{Future}
use fast_queue.Future.Wait.{
  Pause, spin_pause, spin, wait_phase, after_phase, after_spin, future_wait, timed_spins,
  after_timed_phase, after_timed_spin, timed_phase, future_wait_timeout,
}

-- The future is not ready before the look `n`, and from then on it is ready with the status `st`.
pub record FulfilledAt (seen : ℕ → Future) (n : ℕ) (st : Status) : Type 0 where
  pub pending : (k : ℕ) → k < n → (seen k).ready ≡ 0
  pub ready : (k : ℕ) → n ≤ k → (seen k).ready ≢ 0
  pub status_eq : (k : ℕ) → n ≤ k → (seen k).status ≡ st

zero-test : (r : ℕ) → r ≡ 0 → not (r == 0) ≡ false
zero-test r e = ground arith

nonzero-test : (r : ℕ) → r ≢ 0 → not (r == 0) ≡ true
nonzero-test r e = ground arith

module _ (seen : ℕ → Future) where
  -- A spin loop that comes to the look `n` ends there.
  spin_found :
      (pause : ℕ → Pause) (m i n : ℕ)
      → ((k : ℕ) → k < n → (seen k).ready ≡ 0)
      → (seen n).ready ≢ 0
      → i ≤ n
      → n < i + m
      → (ps : List Pause) × (spin seen pause m i ≡ (some n, ps)) × (length ps + i ≡ n)
  unfolding spin
  spin_found pause zero i n p r le lt = absurd (omega arith)
  spin_found pause (suc m) i n p r le lt = elim (dec_lt i n) [
    | yes before ↦
        let (ps, e, len) = spin_found pause m (i + 1) n p r (omega arith) (omega arith) in
        (
          pause i ∷ ps,
          rw (zero-test (seen i).ready (p i before))
              (ap (λ (q : Option ℕ × List Pause). (q.0, pause i ∷ q.1)) e),
          omega arith,
        )
    | no there ↦
        let same : i ≡ n = omega arith in
        ([], rw (same, nonzero-test (seen n).ready r) refl, omega arith)
  ]

  -- One that does not come to a look that finds the future ready pauses in each round.
  spin_over :
      (pause : ℕ → Pause) (m i : ℕ)
      → ((k : ℕ) → k < i + m → (seen k).ready ≡ 0)
      → (ps : List Pause) × (spin seen pause m i ≡ (none, ps)) × (length ps ≡ m)
  unfolding spin
  spin_over pause zero i p = ([], refl, refl)
  spin_over pause (suc m) i p =
      let (ps, e, len) = spin_over pause m (i + 1) (λ k lt. p k (omega arith)) in
      (
        pause i ∷ ps,
        rw (zero-test (seen i).ready (p i (omega arith)))
            (ap (λ (q : Option ℕ × List Pause). (q.0, pause i ∷ q.1)) e),
        omega arith,
      )

  wait_phase_found :
      (fuel k n : ℕ)
      → ((j : ℕ) → j < n → (seen j).ready ≡ 0)
      → (seen n).ready ≢ 0
      → k ≤ n
      → n < k + fuel
      → (ps : List Pause) × (wait_phase seen fuel k ≡ some (n, ps)) × (length ps + k ≡ n)
  unfolding wait_phase
  wait_phase_found zero k n p r le lt = absurd (omega arith)
  wait_phase_found (suc fuel) k n p r le lt = elim (dec_lt k n) [
    | yes before ↦
        let (ps, e, len) = wait_phase_found fuel (k + 1) n p r (omega arith) (omega arith) in
        (Pause.waited ∷ ps, rw (zero-test (seen k).ready (p k before), e) refl, omega arith)
    | no there ↦
        let same : k ≡ n = omega arith in
        ([], rw (same, nonzero-test (seen n).ready r) refl, omega arith)
  ]

  -- `fq_future_wait` on a future that is fulfilled at the look `n` returns, given fuel for the looks
  -- after the spin loop: it gives the status that was set, and has paused `n` times.
  pub future_wait_returns :
      (fuel n : ℕ) (st : Status)
      → FulfilledAt seen n st
      → n < 128 + fuel
      → (ps : List Pause) × (future_wait seen fuel ≡ some (st, ps)) × (length ps ≡ n)
  unfolding future_wait
  future_wait_returns fuel n st f lt = elim (dec_lt n 128) [
    | yes soon ↦
        let (ps, e, len) =
          spin_found spin_pause 128 0 n f.pending (f.ready n (omega arith)) (omega arith)
            (omega arith) in
        (
          ps,
          ap (after_spin seen fuel) e ∙ ap (λ s. some (s, ps)) (f.status_eq (n + 1) (omega arith)),
          omega arith,
        )
    | no later ↦
        let (ps, e, len) = spin_over spin_pause 128 0 (λ k l. f.pending k (omega arith)) in
        let (qs, g, len') =
          wait_phase_found fuel 128 n f.pending (f.ready n (omega arith)) (omega arith)
            (omega arith) in
        (
          ps ++ qs,
          ap (after_spin seen fuel) e
              ∙ ap (after_phase seen ps) g
              ∙ ap (λ s. some (s, ps ++ qs)) (f.status_eq (n + 1) (omega arith)),
          omega (arith, length-append ps qs),
        )
  ]

  module _ (woken : ℕ → Bool) (ms : ℕ) where
    timed_phase_found :
        (fuel k n : ℕ)
        → ((j : ℕ) → j < n → (seen j).ready ≡ 0)
        → ((j : ℕ) → j < n → woken j ≡ true)
        → (seen n).ready ≢ 0
        → k ≤ n
        → n < k + fuel
        → (ps : List Pause) × (timed_phase seen woken ms fuel k ≡ some (some n, ps))
          × (length ps + k ≡ n)
    unfolding timed_phase
    timed_phase_found zero k n p v r le lt = absurd (omega arith)
    timed_phase_found (suc fuel) k n p v r le lt = elim (dec_lt k n) [
      | yes before ↦
          let (ps, e, len) = timed_phase_found fuel (k + 1) n p v r (omega arith) (omega arith) in
          (
            Pause.waited_at_most ms ∷ ps,
            rw (zero-test (seen k).ready (p k before), v k before, e) refl,
            omega arith,
          )
      | no there ↦
          let same : k ≡ n = omega arith in
          ([], rw (same, nonzero-test (seen n).ready r) refl, omega arith)
    ]

    -- `rounds` waits that end early, and one that does not.
    timed_phase_out :
        (rounds fuel k : ℕ)
        → ((j : ℕ) → j ≤ k + rounds → (seen j).ready ≡ 0)
        → ((j : ℕ) → j < k + rounds → woken j ≡ true)
        → woken (k + rounds) ≡ false
        → rounds < fuel
        → timed_phase seen woken ms fuel k
          ≡ some (none, replicate (rounds + 1) (Pause.waited_at_most ms))
    unfolding timed_phase
    timed_phase_out rounds zero k p v out lt = absurd (omega arith)
    timed_phase_out zero (suc fuel) k p v out lt =
        rw (zero-test (seen k).ready (p k (omega arith)), last k out) refl
      where
        last : (j : ℕ) → woken (j + 0) ≡ false → woken j ≡ false
        last j e = let same : j ≡ j + 0 = omega arith in rw same e
    timed_phase_out (suc rounds) (suc fuel) k p v out lt =
        rw
          (
            zero-test (seen k).ready (p k (omega arith)),
            v k (omega arith),
            timed_phase_out rounds fuel (k + 1) (λ j le. p j (omega arith))
                (λ j l. v j (omega arith)) (shift k out) (omega arith),
            one_more rounds,
          )
          refl
      where
        shift : (j : ℕ) → woken (j + suc rounds) ≡ false → woken (j + 1 + rounds) ≡ false
        shift j e = let same : j + 1 + rounds ≡ j + suc rounds = omega arith in rw same e

        one_more : (r : ℕ) → suc r + 1 ≡ suc (r + 1)
        one_more r = omega arith

    -- `fq_future_wait_timeout` on a future that is fulfilled at the look `n`, where no wait before that
    -- runs out of time, returns FQ_OK, given fuel for the looks: the status that was set goes through
    -- the pointer, and it has paused `n` times.
    pub wait_timeout_returns :
        (fuel n : ℕ) (st old : Status)
        → FulfilledAt seen n st
        → ((k : ℕ) → k < n → woken k ≡ true)
        → n < timed_spins seen woken ms + fuel
        → (ps : List Pause) × (future_wait_timeout seen woken ms fuel (some old)
            ≡ some (Status.ok, some st, ps))
          × (length ps ≡ n)
    unfolding future_wait_timeout
    wait_timeout_returns fuel n st old f v lt = elim (dec_lt n (timed_spins seen woken ms)) [
      | yes soon ↦
          let (ps, e, len) =
            spin_found (λ i. Pause.yielded) (timed_spins seen woken ms) 0 n f.pending
              (f.ready n (omega arith)) (omega arith) (omega arith) in
          (
            ps,
            ap (after_timed_spin seen woken ms fuel (some old)) e
                ∙ ap (λ s. some (Status.ok, some s, ps)) (f.status_eq (n + 1) (omega arith)),
            omega arith,
          )
      | no later ↦
          let (ps, e, len) =
            spin_over (λ i. Pause.yielded) (timed_spins seen woken ms) 0
              (λ k l. f.pending k (omega arith)) in
          let (qs, g, len') =
            timed_phase_found fuel (timed_spins seen woken ms) n f.pending v
              (f.ready n (omega arith)) (omega arith) (omega arith) in
          (
            ps ++ qs,
            ap (after_timed_spin seen woken ms fuel (some old)) e
                ∙ ap (after_timed_phase seen woken ms (some old) ps) g
                ∙ ap (λ s. some (Status.ok, some s, ps ++ qs)) (f.status_eq (n + 1) (omega arith)),
            omega (arith, length-append ps qs),
          )
    ]

    -- A future that stays pending: `fq_future_wait_timeout` returns FQ_ERR_TIMEOUT and leaves the status
    -- as it was, but each wait that another wake-up ends starts the whole timeout again, so that after
    -- `rounds` of them it has waited with the full timeout `rounds + 1` times.
    pub wait_timeout_restarts :
        (fuel rounds : ℕ) (status : Option Status)
        → ((k : ℕ) → k ≤ timed_spins seen woken ms + rounds → (seen k).ready ≡ 0)
        → ((k : ℕ) → k < timed_spins seen woken ms + rounds → woken k ≡ true)
        → woken (timed_spins seen woken ms + rounds) ≡ false
        → rounds < fuel
        → (ps : List Pause) × (future_wait_timeout seen woken ms fuel status
            ≡ some (
              Status.err_timeout,
              status,
              ps ++ replicate (rounds + 1) (Pause.waited_at_most ms),
            ))
          × (length ps ≡ timed_spins seen woken ms)
    unfolding future_wait_timeout
    wait_timeout_restarts fuel rounds status p v out lt =
        let (ps, e, len) =
          spin_over (λ i. Pause.yielded) (timed_spins seen woken ms) 0 (λ k l. p k (omega arith)) in
        (
          ps,
          ap (after_timed_spin seen woken ms fuel status) e
              ∙ ap (after_timed_phase seen woken ms status ps)
                  (timed_phase_out rounds fuel (timed_spins seen woken ms) p v out lt),
          len,
        )
