-- ===== src/Tests/Waits.antt =====
-- A future that is fulfilled at the third look, one that stays pending, and a scheduler that gets idle.
use fast_queue.Prelude.{
  ℕ, ◌+◌, ◌≡◌, refl, true, Option, none, some, List, ◌++◌, arith, ltb, if◌then◌else◌, length,
  replicate,
}
use fast_queue.Types.{Status}
use fast_queue.World.Defs.{Future}
use fast_queue.Future.Wait.{Pause, future_wait, future_wait_timeout}
use fast_queue.Future.Waiting.{
  FulfilledAt, future_wait_returns, wait_timeout_returns, wait_timeout_restarts,
}
use fast_queue.Scheduler.Defs.{Scheduler}
use fast_queue.Tests.Objects.{fresh_future}
use fast_queue.Tests.Schedules.{sample_scheduler}

abbrev done_future : Future
done_future = record fresh_future { ready = 1; status = Status.err_canceled }

-- Fulfilled at the look 200, after the spin loop
abbrev seen : ℕ → Future
seen k = if ltb k 200 then fresh_future else done_future

seen-FulfilledAt : FulfilledAt seen 200 Status.err_canceled
seen-FulfilledAt = record {
  pending = λ k lt. ground arith;
  ready = λ k le. ground arith;
  status_eq = λ k le. ground arith;
}

future_wait_returns_example :
    (ps : List Pause) × (future_wait seen 100 ≡ some (Status.err_canceled, ps)) × (length ps ≡ 200)
future_wait_returns_example =
    future_wait_returns seen 100 200 Status.err_canceled seen-FulfilledAt (omega arith)

wait_timeout_returns_example :
    (ps : List Pause) × (future_wait_timeout seen (λ k. true) 50 200 (some Status.ok)
      ≡ some (Status.ok, some Status.err_canceled, ps))
    × (length ps ≡ 200)
wait_timeout_returns_example =
    wait_timeout_returns seen (λ k. true) 50 200 200 Status.err_canceled Status.ok seen-FulfilledAt
      (λ k lt. refl) (omega arith)

-- Two wake-ups for nothing, and then the timeout
wait_timeout_restarts_example :
    (ps : List Pause) × (future_wait_timeout (λ k. fresh_future) (λ k. ltb k 34) 50 10 none
      ≡ some (Status.err_timeout, none, ps ++ replicate (2 + 1) (Pause.waited_at_most 50)))
    × (length ps ≡ 32)
wait_timeout_restarts_example =
    wait_timeout_restarts (λ k. fresh_future) (λ k. ltb k 34) 50 10 2 none (λ k le. refl)
      (λ k lt. ground arith) refl (omega arith)

-- Idle from the look 2 on
abbrev running : ℕ → Option Scheduler
running k =
    some (if ltb k 2 then sample_scheduler else record sample_scheduler { tasks_pending = 0 })
