-- ===== src/Mutex.antt =====
-- The locks of mutex/src/lib.rs, over threads whose atomic operations interleave in any order.
pub mod Threads
pub mod Clocks
pub mod Specification
pub mod Schedules
pub mod SpinLock
pub mod RwLock
mod Tests
mod CountingTests
mod OrderingTests
