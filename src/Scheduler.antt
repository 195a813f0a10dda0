-- ===== src/Scheduler.antt =====
-- src/scheduler/scheduler.c and include/fastqueue/scheduler.h.
pub mod Defs
pub mod Submit
pub mod Cancel
pub mod Worker
pub mod Accounting
pub mod Run
pub mod Life
pub mod Blocks
pub mod Idle
pub mod Views
pub mod Places
pub mod Search
pub mod Steal
pub mod Find
pub mod Missed
pub mod Pool
pub mod Dangling
pub mod Main
pub mod Round
pub mod Waiting
pub mod CancelAll
pub mod Counters
