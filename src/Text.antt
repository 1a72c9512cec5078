-- ===== src/Text.antt =====
-- The text helpers of lib/.
pub mod Escape
mod Tests
