-- ===== src/Battery.antt =====
-- Readings of the battery: internal/battery.
pub mod Compute
pub mod Label
pub mod Reading
pub mod Sysfs
