-- ===== src/Notify.antt =====
-- Notifications: internal/notify.
pub mod Levels
pub mod Limiter
pub mod Retry
pub mod Service
pub mod PowerEvents
use lap_guard.Base.{Text}

-- The event types; `other` is a text that is none of them.
pub data EventType : Type 0 where
  ac_disconnected ac_connected battery_warning battery_critical test_event auto_drain : EventType
  other : Text → EventType
