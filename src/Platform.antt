-- ===== src/Platform.antt =====
-- src/platform/platform.c: threads, mutexes and condition variables over POSIX threads and over Win32.
-- What the system answers is an argument. And the macros of include/fastqueue/platform.h.
pub mod Codes
pub mod Posix
pub mod Windows
pub mod Deadline
pub mod Threads
pub mod Macros
pub mod Features
pub mod Versions
