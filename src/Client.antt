-- ===== src/Client.antt =====
-- The client's end of the control protocol, lib/controlconnect.cpp, and the settings of a call that
-- it carries, lib/audiosettings.cpp.
pub mod Settings
pub mod Connect
pub mod Framing
pub mod Calls
mod Tests
