-- ===== src/Battery/Label.antt =====
-- The dashboard's label of the runtime left: `FormatEstimatedRuntime` of internal/battery/compute.go.
mod Laws
mod Examples
use lap_guard.Base.{
  ℕ, ◌+◌, ◌/◌, ◌%◌, ltb, ◌==◌, ℤ, pos, pos_part, leb_ℤ, Bool, ◌||◌, not, if◌then◌else◌,
}

-- The numbers in the label, before they are printed.
pub data Label : Type 0 where
  dash : Label
  minutes : ℕ → Label
  hours : ℕ → Label
  hours_minutes : ℕ → ℕ → Label
  days : ℕ → Label
  days_hours : ℕ → ℕ → Label

-- `int(math.Round(float64(n) / d))` for an even d: halves are rounded up.
abbrev pub rounded : ℕ → ℕ → ℕ
rounded n d = (n + d / 2) / d

abbrev pub minute_label : ℕ → Label
minute_label n = let m = rounded n 60 in minutes (if ltb m 1 then 1 else m)

abbrev pub hour_label : ℕ → Label
hour_label n =
    let h = n / 3600 in
    let m = rounded (n % 3600) 60 in
    if m == 60 then hours (h + 1) else if m == 0 then hours h else hours_minutes h m

abbrev pub day_label : ℕ → Label
day_label n =
    let d = n / 86400 in
    let h = rounded (n % 86400) 3600 in
    if h == 24 then days (d + 1) else if h == 0 then days d else days_hours d h

unfoldable pub format_estimated_runtime : ℤ → Bool → Label
format_estimated_runtime seconds available =
    let n = pos_part seconds in
    if not available || leb_ℤ seconds (pos 0)
    then dash
    else if ltb n 3600
    then minute_label n
    else if ltb n 86400
    then hour_label n
    else day_label n
