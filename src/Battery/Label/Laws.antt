-- ===== src/Battery/Label/Laws.antt =====
-- How close the label is to the runtime, and where its parts are out of their ranges.
use lap_guard.Base.{ℕ, ◌+◌, ◌*◌, ◌≤◌, ◌<◌, ◌⊎◌, ◌↔◌, ◌≡◌, pos, true, arith}
use lap_guard.Battery.Label.{
  Label, dash, minutes, hours, hours_minutes, days, days_hours, format_estimated_runtime,
  minute_label, hour_label, day_label,
}

-- The seconds that a label stands for.
abbrev pub seconds_of : Label → ℕ
seconds_of dash = 0
seconds_of (minutes m) = m * 60
seconds_of (hours h) = h * 3600
seconds_of (hours_minutes h m) = h * 3600 + m * 60
seconds_of (days d) = d * 86400
seconds_of (days_hours d h) = d * 86400 + h * 3600

-- A label whose parts are in range: minutes below an hour, hours below a day, and no part zero.
abbrev pub IsNormal : Label → Type 0
IsNormal dash = ⊥
IsNormal (minutes m) = (1 ≤ m) × (m < 60)
IsNormal (hours h) = (1 ≤ h) × (h < 24)
IsNormal (hours_minutes h m) = (1 ≤ h) × (h < 24) × (1 ≤ m) × (m < 60)
IsNormal (days d) = 1 ≤ d
IsNormal (days_hours d h) = (1 ≤ d) × (1 ≤ h) × (h < 24)

-- Two numbers at most `d` apart.
abbrev pub Within : ℕ → ℕ → ℕ → Type 0
Within d a b = (a ≤ b + d) × (b ≤ a + d)

minute_label-Within : (n : ℕ) → 30 ≤ n → Within 30 (seconds_of (minute_label n)) n
minute_label-Within n h = ground arith

hour_label-Within : (n : ℕ) → Within 30 (seconds_of (hour_label n)) n
hour_label-Within n = ground arith

day_label-Within : (n : ℕ) → Within 1800 (seconds_of (day_label n)) n
day_label-Within n = ground arith

-- The label of a runtime of half a minute or more stands for a time at most 30 seconds off below a
-- day, and at most half an hour off from a day on.
pub format-Within :
    (n : ℕ)
    → 30 ≤ n
    → let t = seconds_of (format_estimated_runtime (pos n) true) in
      (n < 86400 → Within 30 t n) × (86400 ≤ n → Within 1800 t n)
unfolding format_estimated_runtime
format-Within n h = (
  λ k. ground (arith, minute_label-Within n h, hour_label-Within n),
  λ k. ground (arith, day_label-Within n),
)

-- A runtime of a second or more has a label with its parts in range (minutes below sixty, hours
-- below twenty-four, none of them zero) exactly where it lies neither in the last half minute of
-- the first hour nor in that of the first day; the former shows as 60 minutes, the latter as 24
-- hours.
pub format-iff_IsNormal :
    (n : ℕ)
    → 1 ≤ n
    → let label = format_estimated_runtime (pos n) true in
      (IsNormal label ↔ (n < 3570 ⊎ (3600 ≤ n × n < 86370) ⊎ 86400 ≤ n))
      × (3570 ≤ n → n < 3600 → label ≡ minutes 60)
      × (86370 ≤ n → n < 86400 → label ≡ hours 24)
unfolding format_estimated_runtime
format-iff_IsNormal n h =
    ((λ k. ground arith, λ k. ground arith), λ k l. ground arith, λ k l. ground arith)
