-- ===== src/Rwlock.antt =====
-- The read-write lock of lock.h.
pub mod Moves
pub mod Totals
pub mod Guards
pub mod Invariant
pub mod Stuck
mod Tests
