-- ===== src/Notify/Levels.antt =====
-- The level monitor of internal/notify/levels.go, which announces a low battery once per discharge.
mod Laws
mod Examples
use lap_guard.Base.{
  ℤ, pos, ltb_ℤ, leb_ℤ, Bool, true, false, ◌||◌, not, Option, none, some, List, [], ◌∷◌,
  if◌then◌else◌,
}
use lap_guard.Notify.{EventType, battery_warning, battery_critical}

pub record LevelReading : Type 0 where
  pub present : Bool
  pub percent : ℤ
  pub percent_ok : Bool
  pub discharging : Bool

pub record LevelMonitor : Type 0 where
  pub warning_fired : Bool
  pub critical_fired : Bool

abbrev pub new_monitor : LevelMonitor
new_monitor = record { warning_fired = false; critical_fired = false }

-- The thresholds as they are used: critical is at least 0, and warning at least critical.
abbrev pub used_critical : ℤ → ℤ
used_critical critical = if ltb_ℤ critical (pos 0) then pos 0 else critical

abbrev pub used_warning : ℤ → ℤ → ℤ
used_warning warning critical = if ltb_ℤ warning critical then critical else warning

abbrev at_critical : LevelMonitor → LevelMonitor × Option EventType
at_critical m =
    if m.critical_fired
    then (m, none)
    else (record { warning_fired = true; critical_fired = true }, some battery_critical)

abbrev at_warning : LevelMonitor → LevelMonitor × Option EventType
at_warning m =
    if m.warning_fired then (m, none) else (record m { warning_fired = true }, some battery_warning)

abbrev by_level : ℤ → ℤ → ℤ → LevelMonitor → LevelMonitor × Option EventType
by_level warning critical percent m =
    if leb_ℤ percent critical
    then at_critical m
    else if leb_ℤ percent warning
    then at_warning m
    else (new_monitor, none)

-- `tick`, with the event that it hands to `Send`. A failed read is `none`. What `Send` returns is
-- ignored.
unfoldable pub tick : ℤ → ℤ → Option LevelReading → LevelMonitor → LevelMonitor × Option EventType
tick warning critical none m = (m, none)
tick warning critical (some r) m =
    if not r.present || not r.percent_ok
    then (m, none)
    else if not r.discharging
    then (new_monitor, none)
    else (let c = used_critical critical in by_level (used_warning warning c) c r.percent m)

abbrev consed : Option EventType → List EventType → List EventType
consed none es = es
consed (some e) es = e ∷ es

-- Ticks with the thresholds of each moment, and all the events, in order.
unfoldable pub run :
    List (ℤ × ℤ × Option LevelReading) → LevelMonitor → LevelMonitor × List EventType
unfolding tick
run [] m = (m, [])
run ((warning, critical, reading) ∷ rest) m =
    let (m', event) = tick warning critical reading m in
    let (m'', events) = run rest m' in (m'', consed event events)
