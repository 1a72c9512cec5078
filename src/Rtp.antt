-- ===== src/Rtp.antt =====
-- The packet formats of lib/rtp*.cpp (RFC 3550 and RFC 3551): a module for each class, over the
-- 32-bit words of `Wire`.
pub mod Wire
pub mod Bytes
pub mod Orders
pub mod Header
pub mod Head
pub mod Bye
pub mod Block
pub mod Sender
pub mod Reception
pub mod Source
pub mod Compound
mod Tests
