-- ===== src/Api/Actions/Examples.antt =====
-- A request to power off: real actions on, on battery, the guard free.
use lap_guard.Base.{
  len_bytes, text_eq, trim_space, ℕ, ◌*◌, ◌≡◌, ◌↔◌, refl, pos, true, false, none, some, Text, codes,
  Any, inl,
}
use lap_guard.Config.{Config, defaults, manual_actions_ready}
use lap_guard.Power.{battery}
use lap_guard.Safety.Executor.{host, perform_all, perform}
use lap_guard.Api.Guard.{in_cooldown, new_guard, begin}
use lap_guard.Api.Actions.{
  seconds, manual_power_off, want_confirm, BatteryReading, ready, idempotency_hash, Actors,
  manual_executor, manual_steps, Request, admit, run_admitted, run_manual_action, safety_gate,
}
use lap_guard.Api.Actions.Laws.{Executes, Permitted, run_manual_action-Permitted, ready_lem}

abbrev live : Config
live = record defaults {
  safety = record defaults.safety { dry_run = false };
  actions = record defaults.actions { real_enabled = true };
}

abbrev discharges : BatteryReading
discharges = record { status = codes "Discharging"; percent = some (pos 40); discharging = true }

abbrev actors : Actors
actors = record { test_actor = none; rec = none; real = host true true true }

abbrev minute : ℕ
minute = 60 * 1_000_000_000

abbrev same : Text → Text
same key = key

abbrev wanted : Request
wanted = record { confirm = some (codes "POWER_OFF"); key = codes "k1" }

confirms : text_eq (codes "POWER_OFF") (want_confirm manual_power_off) ≡ true
unfolding text_eq
confirms = refl

usable : idempotency_hash same (codes "k1") ≡ some (codes "k1")
unfolding idempotency_hash trim_space text_eq len_bytes
usable = refl

acts :
    Any Executes
      (run_manual_action same manual_power_off live live battery discharges actors minute wanted
        new_guard).2
unfolding run_manual_action admit text_eq idempotency_hash trim_space safety_gate begin run_admitted
    manual_executor manual_actions_ready manual_steps perform_all perform len_bytes in_cooldown
    seconds
acts = inl tt

run_manual_action-Permitted_example :
    Permitted manual_power_off live live battery discharges wanted new_guard
run_manual_action-Permitted_example =
    run_manual_action-Permitted same manual_power_off live live battery discharges actors minute
      wanted new_guard refl refl acts

chosen : manual_executor live actors ≡ host true true true
unfolding manual_executor manual_actions_ready
chosen = refl

ready_lem_example :
    ((admit same manual_power_off live battery discharges minute
        (record { confirm = some (codes "POWER_OFF"); key = codes "k1" })
        new_guard).1
      ≡ none)
    ↔ (ready live battery discharges minute new_guard ≡ true)
ready_lem_example =
    ready_lem same manual_power_off live battery discharges minute (codes "POWER_OFF") (codes "k1")
      new_guard refl confirms usable
