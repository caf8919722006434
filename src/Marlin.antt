-- ===== src/Marlin.antt =====
-- src/marlin: the protocol of the Marlin firmware.
pub mod Parser
pub mod Session
