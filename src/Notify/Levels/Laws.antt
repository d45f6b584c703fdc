-- ===== src/Notify/Levels/Laws.antt =====
-- A discharge brings each announcement at most once.
use lap_guard.Base.{
  ◌≢◌, ℕ, ◌+◌, ◌≤◌, ◌≡◌, ◌↔◌, ℤ, ◌≤ℤ◌, Bool, true, false, Option, none, some, List, [], ◌∷◌, All,
  arith, if◌then◌else◌,
}
use lap_guard.Notify.{EventType, battery_warning, battery_critical}
use lap_guard.Notify.Levels.{LevelReading, LevelMonitor, used_critical, used_warning, tick, run}

pub is_critical : EventType → ℕ
is_critical battery_critical = 1
is_critical _ = 0

pub is_warning : EventType → ℕ
is_warning battery_warning = 1
is_warning _ = 0

abbrev pub count : (EventType → ℕ) → List EventType → ℕ
count f [] = 0
count f (e ∷ es) = f e + count f es

abbrev count_one : (EventType → ℕ) → Option EventType → ℕ
count_one f none = 0
count_one f (some e) = f e

-- A tick that neither charges nor rises above the warning threshold.
abbrev pub KeepsLow : (ℤ × ℤ × Option LevelReading) → Type 0
KeepsLow (warning, critical, none) = Unit
KeepsLow (warning, critical, some r) =
    (r.discharging ≡ true) × (r.percent ≤ℤ used_warning warning (used_critical critical))

abbrev fired : Bool → ℕ
fired b = if b then 1 else 0

tick-budget :
    (poll : ℤ × ℤ × Option LevelReading) (m : LevelMonitor)
    → KeepsLow poll
    → let r = tick poll.0 poll.1 poll.2 m in
      (count_one is_warning r.1 + fired m.warning_fired ≤ fired r.0.warning_fired)
      × (count_one is_critical r.1 + fired m.critical_fired ≤ fired r.0.critical_fired)
unfolding tick is_critical is_warning
tick-budget poll m low = ground arith

run-budget :
    (polls : List (ℤ × ℤ × Option LevelReading)) (m : LevelMonitor)
    → All KeepsLow polls
    → let r = run polls m in
      (count is_warning r.1 + fired m.warning_fired ≤ fired r.0.warning_fired)
      × (count is_critical r.1 + fired m.critical_fired ≤ fired r.0.critical_fired)
unfolding run
run-budget [] m low = ground arith
run-budget (poll ∷ rest) m (low, lows) =
    let now = tick-budget poll m low in
    let later = run-budget rest (tick poll.0 poll.1 poll.2 m).0 lows in ground (arith, now, later)

-- Over any polls at which the battery discharges and never rises above the warning threshold of the
-- moment, failed reads among them, the monitor announces the warning at most once and the critical
-- level at most once, whatever it had announced before.
pub run_once :
    (polls : List (ℤ × ℤ × Option LevelReading)) (m : LevelMonitor)
    → All KeepsLow polls
    → (count is_warning (run polls m).1 ≤ 1) × (count is_critical (run polls m).1 ≤ 1)
run_once polls m low = let h = run-budget polls m low in ground arith

-- A reading on discharge at or below the critical threshold as it is used leaves the critical level
-- announced: by this tick exactly where no earlier one had, and without a warning.
pub tick_critical :
    (warning critical : ℤ) (r : LevelReading) (m : LevelMonitor)
    → r.present ≡ true
    → r.percent_ok ≡ true
    → r.discharging ≡ true
    → r.percent ≤ℤ used_critical critical
    → let t = tick warning critical (some r) m in
      (t.0.critical_fired ≡ true)
      × ((t.1 ≡ some battery_critical) ↔ (m.critical_fired ≡ false))
      × (t.1 ≢ some battery_warning)
unfolding tick
tick_critical warning critical r m p k d low = ground arith
