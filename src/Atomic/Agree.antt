-- ===== src/Atomic/Agree.antt =====
-- The three versions of the atomic operations against an integer of 32 bits.
use fast_queue.Prelude.{
  ℕ, ◌+◌, ◌-◌, ◌%◌, ◌^◌, ◌<◌, ◌≡◌, ◌≢◌, refl, ap, ◌∙◌, Bool, true, false, Option, some, List, [],
  ◌∷◌, ◌==◌, not, if◌then◌else◌, arith, inl, inr, Bool-cases,
}
use fast_queue.Atomic.Gcc
use fast_queue.Atomic.Msvc
use fast_queue.Atomic.Runs.{
  Operation, load, store, exchange, strong, weak, fetch_add, fetch_sub, fetch_or, fetch_and, Answer,
  exchanged, Version, answer_of, valued, valued_or_none, msvc, promised, promised_run, run_on,
  FitsMsvc,
}

-- A version that keeps the promise of each operation keeps that of a run.
run_on-promised :
    (v : Version) (order failure : ℕ) (Fits : List Operation → Type 0)
    → ((a : ℕ) (o : Operation) (os : List Operation)
        → Fits (o ∷ os)
        → (v a order failure o ≡ some (promised a o)) × Fits os)
    → (os : List Operation) (a : ℕ) → Fits os
    → run_on v order failure a os ≡ some (promised_run a os)
unfolding run_on
run_on-promised v order failure Fits keeps [] a h = refl
run_on-promised v order failure Fits keeps (o ∷ os) a h =
    let (one, fits) = keeps a o os h in
    rw (one, run_on)
      (rw (run_on-promised v order failure Fits keeps os (promised a o).1 fits, run_on) refl)

msvc_exchange :
    (order failure a e d : ℕ)
    → answer_of (Msvc.compare_exchange_strong a e d order failure) ≡ some (promised a (strong e d))
unfolding Msvc.compare_exchange_strong
msvc_exchange order failure a e d = elim (Bool-cases (a == e)) [
  | inl same ↦ rw same refl
  | inr other ↦ rw other refl
]

msvc_load : (order a : ℕ) → Msvc.load a order ≡ (a, a)
unfolding Msvc.load
msvc_load order a = ground arith

msvc_sub :
    (order a x : ℕ)
    → x < 2 ^ 32
    → x ≢ 2 ^ 31
    → Msvc.fetch_sub a x order ≡ some (a, (a + (2 ^ 32 - x)) % 2 ^ 32)
unfolding Msvc.fetch_sub
msvc_sub order a x h ne = ground arith

msvc_keeps :
    (order failure a : ℕ) (o : Operation) (os : List Operation)
    → FitsMsvc (o ∷ os)
    → (msvc a order failure o ≡ some (promised a o)) × FitsMsvc os
unfolding msvc Msvc.store Msvc.exchange Msvc.compare_exchange_weak Msvc.fetch_add Msvc.fetch_or
    Msvc.fetch_and
msvc_keeps order failure a load os h = (ap valued (msvc_load order a), h)
msvc_keeps order failure a (store v) os h = (refl, h)
msvc_keeps order failure a (exchange v) os h = (refl, h)
msvc_keeps order failure a (strong e d) os h = (msvc_exchange order failure a e d, h)
msvc_keeps order failure a (weak true e d) os h = absurd h
msvc_keeps order failure a (weak false e d) os h =
    (msvc_exchange order failure a e d ∙ weak_strong (a == e), h)
  where
    weak_strong :
        (b : Bool)
        → ◌≡◌ {A = Option (Answer × ℕ)}
            (some (if b then (exchanged true e, d) else (exchanged false a, a)))
            (some (if not b then (exchanged false a, a) else (exchanged true e, d)))
    weak_strong true = refl
    weak_strong false = refl
msvc_keeps order failure a (fetch_add x) os h = (refl, h)
msvc_keeps order failure a (fetch_sub x) os h =
    (ap valued_or_none (msvc_sub order a x h.0 h.1), h.2)
msvc_keeps order failure a (fetch_or x) os h = (refl, h)
msvc_keeps order failure a (fetch_and x) os h = (refl, h)

-- In the version for MSVC too a run of operations answers, and leaves the cell, as C promises, where
-- no weak exchange is to fail spuriously, which it never does there, and nothing is subtracted that is
-- not an `int`, or that is INT_MIN, whose negation overflows.
pub msvc_runs_promised :
    (order failure : ℕ) (os : List Operation) (a : ℕ)
    → FitsMsvc os
    → run_on msvc order failure a os ≡ some (promised_run a os)
msvc_runs_promised order failure os a h =
    run_on-promised msvc order failure FitsMsvc (λ b o l g. msvc_keeps order failure b o l g) os a h
