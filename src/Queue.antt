-- ===== src/Queue.antt =====
-- queue.h, queue.c and the locks of lock.h: a queue that several threads put into and get from.
pub mod ListOf
pub mod Threads
pub mod Owner
pub mod Fifo
pub mod History
pub mod Progress
mod Tests
