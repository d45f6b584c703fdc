-- ===== src/Config/Settings/Examples.antt =====
-- Changes of the settings, and their theorems at concrete requests.
use lap_guard.Base.{
  ◌⊎◌, text_eq, ◌≡◌, refl, arith, pos, none, some, ok, err, codes, true, false, trim_space,
}
use lap_guard.Config.{defaults, default_actions}
use lap_guard.Config.Normalize.{paths_not_over_http, normalize_actions}
use lap_guard.Config.Normalize.Bounds.{IsValid}
use lap_guard.Config.Settings.{put_config, Disk, SettingsRequest, ActionsPatch, apply_actions}
use lap_guard.Config.Settings.Laws.{Locked, put_config-Locked}

abbrev disk : Disk
disk = record { default_path = some (codes "/home/u/config.json"); save_ok = λ _. true }

abbrev no_actions : ActionsPatch
no_actions = record {
  real_enabled = none;
  require_confirmation = none;
  cooldown_seconds = none;
  poweroff_path = none;
  docker_path = none;
  sync_path = none;
  poweroff_timeout_secs = none;
}

-- Turns real actions on and asks to drop the confirmation.
abbrev bold : ActionsPatch
bold = record no_actions { real_enabled = some true; require_confirmation = some false }

abbrev low_warning : SettingsRequest
low_warning = record {
  notifications = none;
  shutdown =
      some (record { enabled = none; warning_threshold = some (pos 5); critical_threshold = none });
  docker = none;
  safety = none;
  actions = none;
  auto_drain = none;
}

path_refused :
    apply_actions default_actions (record no_actions { sync_path = some (codes "/bin/sync") })
    ≡ err paths_not_over_http
unfolding apply_actions
path_refused = refl

bold_accepted :
    apply_actions default_actions bold ≡ ok (record default_actions { real_enabled = true })
unfolding apply_actions normalize_actions trim_space text_eq
bold_accepted = refl

defaults-IsValid : IsValid defaults
defaults-IsValid = ground arith

-- The request that turns real actions on; it is accepted, and drops no confirmation.
abbrev bold_request : SettingsRequest
bold_request = record low_warning { shutdown = none; actions = some bold }

put_config-Locked_example :
    let now = (put_config (λ url. true) disk bold_request defaults).0 in
    (now ≡ defaults) ⊎ Locked default_actions now.actions
put_config-Locked_example = put_config-Locked (λ url. true) disk bold_request defaults
