-- ===== src/Memory.antt =====
-- lib.h and lib.c: the table of the addresses that the library has allocated, and the counts of
-- references.
pub mod Table
pub mod Digits
pub mod Pages
pub mod Counts
pub mod References
mod Tests
