-- ===== src/Queue/Concurrent.antt =====
-- Any number of threads in `fq_queue_push`, `fq_queue_pop` and `fq_queue_try_pop` on one queue, one
-- shared access at a time, in any order. The accesses are taken in one order that all threads see.
pub mod Machine
pub mod Invariant
pub mod Preserve
pub mod Safety
