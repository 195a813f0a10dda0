-- ===== src/World.antt =====
-- What the library shares with its clients: the heap with its tasks and futures, and the calls that
-- it makes of the clients' functions.
pub mod Defs
