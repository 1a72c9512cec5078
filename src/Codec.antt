-- ===== src/Codec.antt =====
-- The call and statistics logic of lib/codec.cpp: the lines signalled over RTCP, the order of the
-- packets received, the reports. The audio interface and the audio libraries are outside.
pub mod Gpio
pub mod Sequence
pub mod Stats
pub mod Reports
pub mod Call
mod Tests
