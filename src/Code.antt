-- ===== src/Code.antt =====
-- code.h and code.c: conversions between 16-bit characters and byte strings.
pub mod Utf8
pub mod Bytes
pub mod RoundTrip
pub mod Sizes
pub mod Gbk
pub mod GbkTrip
pub mod Choice
pub mod Chosen
mod Tests
