-- ===== src/Future/Wait.antt =====
-- `fq_future_wait` and `fq_future_wait_timeout` of future.c. What other threads do to the future in
-- the meantime is an argument: `seen k` is the future at the k-th point in time at which the waiting
-- thread looks at it. The mutex keeps the future still between a look and the wait that follows it.
use fast_queue.Prelude.{
  ℕ, zero, suc, ◌+◌, ◌/◌, Bool, Option, none, some, List, [], ◌∷◌, ◌++◌, ◌==◌, ltb, not,
  if◌then◌else◌,
}
use fast_queue.Types.{Status}
use fast_queue.World.Defs.{Future}
use fast_queue.Future.Spin.{future_spin_count}

-- `fq_thread_yield`, `fq_thread_sleep_ms`, `fq_condition_wait` and `fq_condition_timedwait`
pub data Pause : Type 0 where
  yielded : Pause
  slept : (ms : ℕ) → Pause
  waited : Pause
  waited_at_most : (ms : ℕ) → Pause

-- `i < FQ_FUTURE_SPIN_COUNT / 2 ? fq_thread_yield() : fq_thread_sleep_ms(0)`
abbrev pub spin_pause : ℕ → Pause
spin_pause i = if ltb i (future_spin_count / 2) then Pause.yielded else Pause.slept 0

-- `if (status) *status = ...;`
abbrev pub write_status : Option Status → Status → Option Status
write_status none st = none
write_status (some old) st = some st

module _ (seen : ℕ → Future) where
  abbrev pub ready_at : ℕ → Bool
  ready_at k = not ((seen k).ready == 0)

  -- A spin loop with `n` rounds left, from `i` on: the look that found the future ready, if one did,
  -- and the pauses, which are those of `pause`.
  unfoldable pub spin : (ℕ → Pause) → ℕ → ℕ → Option ℕ × List Pause
  spin pause zero i = (none, [])
  spin pause (suc n) i =
      let rest = spin pause n (i + 1) in
      if ready_at i then (some i, []) else (rest.0, pause i ∷ rest.1)

  -- The loop of `fq_future_wait` over the condition variable, on fuel, from the look `k` on. `none` means
  -- that the fuel ran out.
  unfoldable pub wait_phase : ℕ → ℕ → Option (ℕ × List Pause)
  wait_phase zero k = none
  wait_phase (suc fuel) k =
      let rest = wait_phase fuel (k + 1) in
      if ready_at k
      then some (k, [])
      else elim rest [ none ↦ none | some r ↦ some (r.0, Pause.waited ∷ r.1) ]

  -- `fq_mutex_unlock` and the return
  abbrev pub after_phase : List Pause → Option (ℕ × List Pause) → Option (Status × List Pause)
  after_phase pauses none = none
  after_phase pauses (some r) = some ((seen (r.0 + 1)).status, pauses ++ r.1)

  -- What follows the spin loop.
  abbrev pub after_spin : ℕ → Option ℕ × List Pause → Option (Status × List Pause)
  after_spin fuel (some i, pauses) = some ((seen (i + 1)).status, pauses)
  after_spin fuel (none, pauses) = after_phase pauses (wait_phase fuel future_spin_count)

  -- `fq_future_wait` on a future that is not NULL
  unfoldable pub future_wait : ℕ → Option (Status × List Pause)
  future_wait fuel = after_spin fuel (spin spin_pause future_spin_count 0)

  module _ (woken : ℕ → Bool) (timeout_ms : ℕ) where
    -- `timeout_ms > 0 ? FQ_FUTURE_SPIN_COUNT / 4 : 0`
    abbrev pub timed_spins : ℕ
    timed_spins = if ltb 0 timeout_ms then future_spin_count / 4 else 0

    -- The loop of `fq_future_wait_timeout` over the condition variable; `woken k` is whether the wait
    -- after the look `k` ended before its timeout. The result is the look that found the future ready,
    -- or `none` for FQ_ERR_TIMEOUT.
    unfoldable pub timed_phase : ℕ → ℕ → Option (Option ℕ × List Pause)
    timed_phase zero k = none
    timed_phase (suc fuel) k =
        let rest = timed_phase fuel (k + 1) in
        if ready_at k
        then some (some k, [])
        else if not (woken k)
        then some (none, Pause.waited_at_most timeout_ms ∷ [])
        else elim rest [ none ↦ none | some r ↦ some (r.0, Pause.waited_at_most timeout_ms ∷ r.1) ]

    abbrev pub after_timed_phase :
        Option Status
        → List Pause
        → Option (Option ℕ × List Pause)
        → Option (Status × Option Status × List Pause)
    after_timed_phase status pauses none = none
    after_timed_phase status pauses (some (none, more)) =
        some (Status.err_timeout, status, pauses ++ more)
    after_timed_phase status pauses (some (some k, more)) =
        some (Status.ok, write_status status (seen (k + 1)).status, pauses ++ more)

    abbrev pub after_timed_spin :
        ℕ → Option Status → Option ℕ × List Pause → Option (Status × Option Status × List Pause)
    after_timed_spin fuel status (some i, pauses) =
        some (Status.ok, write_status status (seen (i + 1)).status, pauses)
    after_timed_spin fuel status (none, pauses) =
        after_timed_phase status pauses (timed_phase fuel timed_spins)

    -- `fq_future_wait_timeout` on a future that is not NULL: what it returns, and `*status` before and
    -- after
    unfoldable pub future_wait_timeout :
        ℕ → Option Status → Option (Status × Option Status × List Pause)
    future_wait_timeout fuel status =
        after_timed_spin fuel status (spin (λ i. Pause.yielded) timed_spins 0)
