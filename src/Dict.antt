-- ===== src/Dict.antt =====
-- The lists of dict.h and dict.c.
pub mod Nodes
pub mod Linked
pub mod Search
pub mod Insert
pub mod Push
pub mod Unlink
pub mod Pop
pub mod Stale
mod Tests
