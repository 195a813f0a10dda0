-- ===== src/Tests.antt =====
-- The theorems at concrete states: a build and the clocks, the atomics and the system's answers, waits,
-- parallel loops, small queues, a race of two threads, a task with its future, and a scheduler of two
-- workers.
mod Builds
mod Rings
mod Systems
mod Waits
mod Loops
mod Races
mod Objects
mod Schedules
mod Counters
mod Searches
mod Threads
