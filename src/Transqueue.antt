-- ===== src/Transqueue.antt =====
-- transqueue.h and transqueue.c: the thread that numbers, encodes and sends packets, and the thread
-- that puts the received ones in order and restores the lost ones.
pub mod Send
pub mod Wire
pub mod Encoded
pub mod Unit
pub mod Parities
pub mod Receive
pub mod Deliver
pub mod Restore
pub mod Order
pub mod FirstLost
mod Tests
