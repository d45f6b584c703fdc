-- ===== src/Actions.antt =====
-- The executor that runs commands on the machine: internal/actions.
pub mod Argv
pub mod Real
