-- ===== src/Api/Guard/Examples.antt =====
-- A guard that let in an action at one minute, which ran until two minutes.
use lap_guard.Base.{ℕ, ◌+◌, ◌*◌, ◌≤◌, ◌≡◌, refl, ℤ, pos, true, some, codes, arith, text_eq}
use lap_guard.Api.Guard.{in_cooldown, new_guard, begin, cooldown_active, duplicate_key, finish}
use lap_guard.Api.Guard.Exclusion.{
  World, begun, ended, Reach, start, request, complete, one_at_a_time,
}

abbrev minute : ℕ
minute = 60 * 1_000_000_000

abbrev one_minute : ℤ
one_minute = pos minute

abbrev busy : World
busy =
    begun one_minute minute (codes "ab") (record { guard = new_guard; running = 0; completed = 0 })

busy-runs : 1 ≤ busy.running
unfolding begin in_cooldown
busy-runs = omega arith

abbrev rested : World
rested = ended (2 * minute) true busy

rested-Reach : Reach rested
rested-Reach = complete (2 * minute) true busy-runs (request one_minute minute (codes "ab") start)

one_at_a_time_example : rested.running ≤ 1
one_at_a_time_example = one_at_a_time rested-Reach

too_early :
    ((begin one_minute (2 * minute + 1) (codes "cd") rested.guard).1 ≡ some cooldown_active)
    × ((begin one_minute (2 * minute + 1) (codes "ab") rested.guard).1 ≡ some duplicate_key)
unfolding begin finish text_eq in_cooldown
too_early = (refl, refl)
