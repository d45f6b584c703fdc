-- ===== src/Battery/Label/Examples.antt =====
-- Labels of single runtimes.
use lap_guard.Base.{◌≡◌, ◌↔◌, ◌⊎◌, ◌≤◌, ◌<◌, refl, true, pos, arith}
use lap_guard.Battery.Label.{format_estimated_runtime, minutes, hours}
use lap_guard.Battery.Label.Laws.{IsNormal, Within, seconds_of, format-Within, format-iff_IsNormal}

sixty_minutes : format_estimated_runtime (pos 3599) true ≡ minutes 60
unfolding format_estimated_runtime
sixty_minutes = refl

a_day_of_hours : format_estimated_runtime (pos 86399) true ≡ hours 24
unfolding format_estimated_runtime
a_day_of_hours = refl

format-Within_example :
    let t = seconds_of (format_estimated_runtime (pos 5000) true) in
    (5000 < 86400 → Within 30 t 5000) × (86400 ≤ 5000 → Within 1800 t 5000)
format-Within_example = format-Within 5000 (omega arith)

format-iff_IsNormal_example :
    let label = format_estimated_runtime (pos 3599) true in
    (IsNormal label ↔ (3599 < 3570 ⊎ (3600 ≤ 3599 × 3599 < 86370) ⊎ 86400 ≤ 3599))
    × (3570 ≤ 3599 → 3599 < 3600 → label ≡ minutes 60)
    × (86370 ≤ 3599 → 3599 < 86400 → label ≡ hours 24)
format-iff_IsNormal_example = format-iff_IsNormal 3599 (omega arith)
