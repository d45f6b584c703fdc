-- ===== src/Api.antt =====
-- The parts of internal/api that decide whether a request may change anything.
pub mod Guard
pub mod Actions
pub mod Protect
pub mod Body
pub mod Server
