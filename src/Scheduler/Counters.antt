-- ===== src/Scheduler/Counters.antt =====
-- The counters of the scheduler while clients submit and workers run, in any interleaving.
pub mod Machine
pub mod Tally
pub mod Exact
pub mod Idle
