-- ===== src/Discovery.antt =====
-- What the program finds out about the machine: internal/discovery.
pub mod Scanner
pub mod Modules
pub mod Tools
