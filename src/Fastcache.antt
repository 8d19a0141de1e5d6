-- ===== src/Fastcache.antt =====
-- fastcache.h and fastcache.c: packets waiting in memory, in slots with an index of numbers.
pub mod HashOf
pub mod Node
pub mod Slots
pub mod Cached
pub mod ReadBack
pub mod Cache
pub mod Room
pub mod Totals
pub mod IndexZero
mod Tests
