-- ===== src/Grbl.antt =====
-- src/grbl: the GRBL protocol.
pub mod Errors
pub mod Parser
pub mod Readings
pub mod Session
pub mod Simple
