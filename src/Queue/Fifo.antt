-- ===== src/Queue/Fifo.antt =====
-- What queue.h promises: a first-in first-out queue of tasks with a bound on their number.
use fast_queue.Prelude.{ℕ, List, [], ◌∷◌, ◌++◌, Option, some, ltb, if◌then◌else◌, length}
use fast_queue.Types.{Status}

module _ {T : Type 0} where
  -- A push fails when `room` tasks are held.
  unfoldable pub push : ℕ → List T → T → Status × List T
  push room xs t =
      if ltb (length xs) room then (Status.ok, xs ++ t ∷ []) else (Status.err_overflow, xs)

  -- A pop takes the oldest task; `task` is what the caller's variable holds before.
  unfoldable pub pop : List T → Option T → Status × Option T × List T
  pop [] task = (Status.err_busy, task, [])
  pop (x ∷ xs) task = (Status.ok, some x, xs)
