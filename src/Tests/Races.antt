-- ===== src/Tests/Races.antt =====
-- Thread 1 pushes the task 9 to a queue with 7 and 8 while thread 2 takes one.
use fast_queue.Prelude.{ℕ, ◌<◌, ◌≡◌, ◌≢◌, refl, some, ◌++◌, map, arith, length, ℕ_discrete}
use fast_queue.Queue.Ring.{push_task}
use fast_queue.Queue.Valid.{IsValid, count, contents}
use fast_queue.Queue.Concurrent.Machine.{Move, System, Step, Reach}
use fast_queue.Queue.Concurrent.Safety.{writes, reads, linear_history, no_data_race}
use fast_queue.Tests.Rings.{ring_two, ring_two-Holds}

-- Both have their locks; thread 1 has found room, and thread 2 a task.
abbrev race : (s : System ℕ) × Reach ring_two s
unfolding push_task ℕ_discrete
race = (
  _,
  Reach.later
      (Reach.later
        (Reach.later
          (Reach.later
            (Reach.later
              (Reach.later
                (Reach.later (Reach.later Reach.start (Step.pick 1 (Move.push_call {t = 9} refl)))
                  (Step.pick 2 Move.pop_call))
                (Step.pick 1 (Move.push_lock refl)))
              (Step.pick 2 (Move.pop_lock refl)))
            (Step.pick 1 Move.push_load_tail))
          (Step.pick 2 Move.pop_load_head))
        (Step.pick 1 (Move.push_load_head (omega arith))))
      (Step.pick 2 (Move.pop_load_tail (omega arith))),
)

-- The same, with the task published and the other taken.
abbrev race_over : (s : System ℕ) × Reach ring_two s
unfolding push_task ℕ_discrete
race_over = (
  _,
  Reach.later
      (Reach.later
        (Reach.later (Reach.later race.1 (Step.pick 1 Move.push_write))
          (Step.pick 2 Move.pop_load_slot))
        (Step.pick 1 Move.push_publish))
      (Step.pick 2 Move.pop_take),
)

linear_history_example :
    (contents ring_two ++ map some race_over.0.mem.pushed
      ≡ race_over.0.mem.popped ++ contents race_over.0.mem.queue)
    × IsValid race_over.0.mem.queue
    × (count race_over.0.mem.queue < race_over.0.mem.queue.capacity)
unfolding push_task ℕ_discrete
linear_history_example = linear_history ring_two-Holds.valid race_over.1

-- Thread 1 is about to write the slot 2, and thread 2 to read the slot 0.
no_data_race_example :
    (2 < length race.0.mem.queue.buffer) × (0 < length race.0.mem.queue.buffer) × ◌≢◌ {A = ℕ} 2 0
unfolding push_task ℕ_discrete
no_data_race_example =
    no_data_race 1 2 ring_two-Holds.valid race.1 (omega arith) (writes {t = 9}) reads refl
