-- ===== src/Notify/Levels/Examples.antt =====
-- A discharge through both thresholds of 20 and 10 percent.
use lap_guard.Base.{ℤ, pos, ◌≤◌, ◌≡◌, refl, true, Option, none, some, List, [], ◌∷◌, arith, ℕ}
use lap_guard.Notify.{battery_warning, battery_critical}
use lap_guard.Notify.Levels.{LevelReading, new_monitor, tick, run}
use lap_guard.Notify.Levels.Laws.{count, is_warning, is_critical, run_once}

abbrev at : ℕ → LevelReading
at p = record { present = true; percent = pos p; percent_ok = true; discharging = true }

abbrev polls : List (ℤ × ℤ × Option LevelReading)
polls =
    (pos 20, pos 10, some (at 19))
    ∷ (pos 20, pos 10, none)
    ∷ (pos 20, pos 10, some (at 9))
    ∷ (pos 20, pos 10, some (at 8))
    ∷ []

announced : (run polls new_monitor).1 ≡ battery_warning ∷ battery_critical ∷ []
unfolding run tick
announced = refl

run_once_example :
    (count is_warning (run polls new_monitor).1 ≤ 1)
    × (count is_critical (run polls new_monitor).1 ≤ 1)
run_once_example =
    run_once polls new_monitor
      ((refl, omega arith), (tt, ((refl, omega arith), ((refl, omega arith), tt))))
