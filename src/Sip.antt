-- ===== src/Sip.antt =====
-- netsipd/: the directory server, which knows the users that are online and sets up their calls.
pub mod Outside
pub mod Connection
pub mod Table
pub mod Sound
pub mod Links
pub mod Reply
pub mod Session
pub mod Login
pub mod Port
pub mod Call
pub mod Command
pub mod Input
pub mod Runs
pub mod Auth
pub mod World
mod Tests
