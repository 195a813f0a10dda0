-- ===== src/Scheduler/Idle.antt =====
-- `fq_scheduler_wait_idle`. What other threads do to the scheduler in the meantime is an argument:
-- `seen k` is the scheduler at the k-th look of the waiting thread.
use fast_queue.Prelude.{
  ℕ, zero, suc, ◌+◌, ◌*◌, ◌≤◌, ◌<◌, ◌≡◌, ◌≢◌, refl, true, false, Option, none, some, List, [], ◌∷◌,
  if◌then◌else◌, arith, length, dec_lt,
}
use fast_queue.Future.Wait.{Pause}
use fast_queue.Scheduler.Defs.{Scheduler, is_idle, idle_reads}

-- `fq_scheduler_wait_idle` from the look `k` on, on fuel: its pauses. `none` means that the fuel ran out.
unfoldable pub wait_idle : (ℕ → Option Scheduler) → ℕ → ℕ → Option (List Pause)
wait_idle seen zero k = none
wait_idle seen (suc fuel) k =
    let rest = wait_idle seen fuel (k + 1) in
    if is_idle (seen k)
    then some []
    else elim rest [ none ↦ none | some ps ↦ some (Pause.yielded ∷ Pause.slept 0 ∷ ps) ]

-- `fq_scheduler_wait_idle` returns at the first look that finds the scheduler idle, with two pauses for
-- each look before.
pub wait_idle_returns :
    (seen : ℕ → Option Scheduler) (fuel k n : ℕ)
    → ((j : ℕ) → j < n → is_idle (seen j) ≡ false)
    → is_idle (seen n) ≡ true
    → k ≤ n
    → n < k + fuel
    → (ps : List Pause) × (wait_idle seen fuel k ≡ some ps) × (length ps + 2 * k ≡ 2 * n)
unfolding wait_idle
wait_idle_returns seen zero k n p i le lt = absurd (omega arith)
wait_idle_returns seen (suc fuel) k n p i le lt = elim (dec_lt k n) [
  | yes before ↦
      let (ps, e, len) = wait_idle_returns seen fuel (k + 1) n p i (omega arith) (omega arith) in
      (Pause.yielded ∷ Pause.slept 0 ∷ ps, rw (p k before, e) refl, omega arith)
  | no there ↦ let same : k ≡ n = omega arith in ([], rw (same, i) refl, omega arith)
]

busy : (n m : ℕ) → n ≢ 0 → idle_reads n m n m ≡ false
unfolding idle_reads
busy n m h = ground arith

-- While a task counts as pending, at every look, `fq_scheduler_wait_idle` does not return.
pub wait_idle_stuck :
    (seen : ℕ → Scheduler) (fuel k : ℕ)
    → ((j : ℕ) → (seen j).tasks_pending ≢ 0)
    → wait_idle (λ j. some (seen j)) fuel k ≡ none
unfolding wait_idle is_idle
wait_idle_stuck seen zero k p = refl
wait_idle_stuck seen (suc fuel) k p =
    rw
      (busy (seen k).tasks_pending (seen k).tasks_active (p k), wait_idle_stuck seen fuel (k + 1) p)
      refl
