-- ===== src/Tests.antt =====
-- The theorems of the library at concrete inputs.
pub mod Decoder
pub mod Sessions
pub mod Flows
pub mod Meters
pub mod Daemon
pub mod Files
pub mod Sharing
pub mod Traffic
pub mod Clients
