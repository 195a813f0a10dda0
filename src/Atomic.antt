-- ===== src/Atomic.antt =====
-- include/fastqueue/atomic.h: the atomic operations on an `int`, over <stdatomic.h>, the intrinsics of
-- MSVC and the builtins of GCC and Clang. A cell is a pattern of 32 bits; an operation gives what it
-- returns, the cell after it, and the memory order that it asks for. Runs has the three versions side by
-- side, Agree what they promise, and Asked which orders they ask for.
pub mod Orders
pub mod Std
pub mod Msvc
pub mod Gcc
pub mod Runs
pub mod Agree
pub mod Asked
