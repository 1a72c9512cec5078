-- ===== src/Sip/Runs.antt =====
-- That the server handles whatever a well-behaved set of clients sends it.
pub mod Returns
pub mod Session
pub mod Login
pub mod Call
pub mod Command
pub mod Inputs
