-- ===== src/Memory.antt =====
-- src/memory/memory.c and include/fastqueue/memory.h.
pub mod Allocator
pub mod Blocks
pub mod Align
pub mod Default
pub mod Accounts
pub mod Sample
