-- ===== src/Tests/Rings.antt =====
-- Queues of 64 slots, and their creation from a heap with two blocks to give.
use fast_queue.Prelude.{
  ℕ, ◌+◌, ◌-◌, ◌*◌, ◌^◌, ◌≤◌, ◌<◌, ◌≡◌, refl, none, some, List, [], ◌∷◌, arith, true, false,
}
use fast_queue.Types.{Status}
use fast_queue.Memory.Allocator.{fq_calloc, resolve}
use fast_queue.Memory.Sample.{Bump, bump_allocators, bump_heap, bump_laws}
use fast_queue.Queue.Pow2.{next_pow2, next_pow2_least}
use fast_queue.Queue.Ring.{Queue, ring_capacity, fresh_queue, create, push_task, queue_capacity}
use fast_queue.Queue.Fifo
use fast_queue.Queue.Refine.{Holds, push_refines}
use fast_queue.Queue.Calls.{
  Call, pushes, pops, tries, drains, asks_size, asks_empty, run_calls, promised_run, run_refines,
}
use fast_queue.Queue.Concurrent.Machine.{System, Reach}
use fast_queue.Queue.Concurrent.Safety.{Access}
use fast_queue.Queue.Create.{fresh_queue-Holds, Created, create-Created, create_wraps}

-- A new queue of 64 slots, and the same with the tasks 7 and 8.
abbrev pub ring : Queue ℕ
ring = fresh_queue none none 64 0

abbrev pub ring_two : Queue ℕ
ring_two = (push_task (push_task ring 7).1 8).1

pub ring-Holds : Holds ring []
ring-Holds = fresh_queue-Holds none none 64 6 0 refl (omega arith) (omega arith)

pub ring_two-Holds : Holds ring_two (7 ∷ 8 ∷ [])
unfolding Fifo.push push_task
ring_two-Holds = (push_refines (7 ∷ []) 8 (push_refines [] 7 ring-Holds).1).1

next_pow2_least_example :
    (k : ℕ) × (k ≤ 63) × (next_pow2 100 ≡ 2 ^ k) × (100 ≤ 2 ^ k) × (2 ^ k < 2 * 100)
next_pow2_least_example = next_pow2_least 100 (omega arith) (omega arith)

create-Created_example :
    Created {T = ℕ} bump_allocators
      (λ b. b.blocks)
      (ring_capacity 100)
      (bump_heap 2)
      (create bump_allocators true 100 none (bump_heap 2))
create-Created_example =
    create-Created ℕ bump_allocators (λ b. b.blocks) bump_laws 100 none (bump_heap 2) (omega arith)

-- The heap after one block, and after two.
abbrev one_block : Bump
one_block = record { next = 0x1001; budget = 1; blocks = (0, 0x1000) ∷ [] }

abbrev two_blocks : Bump
two_blocks = record { next = 0x1002; budget = 0; blocks = (0, 0x1001) ∷ (0, 0x1000) ∷ [] }

first_block :
    fq_calloc bump_allocators (some (resolve none)) 1 128 (bump_heap 2) ≡ (some 0x1000, one_block)
unfolding fq_calloc bump_allocators
first_block = refl

second_block :
    fq_calloc bump_allocators (some (resolve none)) 0 8 one_block ≡ (some 0x1001, two_blocks)
unfolding fq_calloc bump_allocators
second_block = refl

create_wraps_example :
    (q : Queue ℕ) × (create bump_allocators true (2 ^ 63 + 1) none (bump_heap 2)
      ≡ (Status.ok, some q, two_blocks))
    × (q.buffer ≡ [])
    × (queue_capacity (some q) ≡ 2 ^ 64 - 1)
    × (m : System ℕ) × Reach q m
    × Access (m.pc 0) 0 true
    × (m.mem.queue.buffer ≡ [])
create_wraps_example =
    create_wraps ℕ bump_allocators (2 ^ 63 + 1) 0x1000 0x1001 none (bump_heap 2) one_block
      two_blocks 7 (omega arith) (omega arith) first_block second_block

-- A run with every kind of call, NULL arguments among them
abbrev sample_calls : List (Call ℕ)
sample_calls =
    pushes (some 9)
    ∷ pushes none
    ∷ asks_size
    ∷ pops true none
    ∷ pops false none
    ∷ tries false true none
    ∷ tries true false none
    ∷ tries true true none
    ∷ drains true 5
    ∷ drains false 5
    ∷ asks_empty
    ∷ []

run_refines_example :
    ((run_calls ring_two sample_calls).0 ≡ (promised_run 63 (7 ∷ 8 ∷ []) sample_calls).0)
    × (q' : Queue ℕ) × ((run_calls ring_two sample_calls).1 ≡ some q')
    × Holds q' (promised_run 63 (7 ∷ 8 ∷ []) sample_calls).1
unfolding push_task
run_refines_example = run_refines ring_two (7 ∷ 8 ∷ []) sample_calls ring_two-Holds
