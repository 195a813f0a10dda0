-- ===== src/Queue.antt =====
-- src/queue/queue.c and include/fastqueue/queue.h: the task queue, a ring whose capacity is a power
-- of two.
pub mod Pow2
pub mod Ring
pub mod Window
pub mod Slots
pub mod Valid
pub mod Steps
pub mod Fifo
pub mod Refine
pub mod Drain
pub mod Calls
pub mod Create
pub mod Concurrent
