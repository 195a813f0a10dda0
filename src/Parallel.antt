-- ===== src/Parallel.antt =====
-- src/utils/parallel.c. A `long` x of 64 bits is given by x + 2^63, which is not negative: LONG_MIN is
-- 0, the `long` 0 is 2^63, and LONG_MAX is 2^64 - 1. So the order of two is that of ℕ. A difference or
-- a sum that overflows is undefined.
pub mod Ranges
pub mod Interval
pub mod Split
pub mod Submit
pub mod Returns
pub mod Started
pub mod Whole
