-- ===== src/Storage.antt =====
-- The logs of internal/storage.
pub mod Table
pub mod Events
pub mod Audit
mod Examples
