-- ===== src/Config/Normalize/Examples.antt =====
-- Tests of the checks of the settings, and their theorems at concrete settings.
use lap_guard.Base.{
  text_eq, text_eq, text_eq, text_eq, text_eq, text_eq, ◌≡◌, refl, pos, negsuc, err, codes,
  mem_text, to_lower, trim_space, text_eq, contains_any, true, [], ◌∷◌,
}
use lap_guard.Config.{default_auto_drain, default_actions, provider_ntfy, provider_discord}
use lap_guard.Config.Normalize.{
  check_auto_drain, check_actions, drain_providers, clean_on_no, is_abs, normalize_shutdown,
  normalize_auto_drain, normalize_actions, normalize_services, critical_not_below_warning,
  percent_out_of_range, path_wrong_base, base, response_timeout_range,
}

equal_thresholds :
    normalize_shutdown
      (record { enabled = true; warning_threshold = pos 10; critical_threshold = pos 10 })
    ≡ err critical_not_below_warning
unfolding normalize_shutdown
equal_thresholds = refl

negative_threshold :
    normalize_shutdown
      (record { enabled = true; warning_threshold = pos 10; critical_threshold = negsuc 0 })
    ≡ err (percent_out_of_range (codes "critical_threshold"))
unfolding normalize_shutdown
negative_threshold = refl

services_cleaned :
    normalize_services (codes " Ntfy" ∷ codes "smtp" ∷ codes "discord " ∷ codes "ntfy" ∷ [])
    ≡ provider_ntfy ∷ provider_discord ∷ []
unfolding normalize_services mem_text drain_providers to_lower trim_space
services_cleaned = refl

long_timeout :
    normalize_auto_drain (record default_auto_drain { response_timeout_minutes = pos 1441 })
    ≡ err response_timeout_range
unfolding normalize_auto_drain check_auto_drain clean_on_no text_eq to_lower trim_space
long_timeout = refl

wrong_binary :
    normalize_actions (record default_actions { docker_path = codes "/usr/bin/podman" })
    ≡ err (path_wrong_base (codes "docker_path"))
unfolding normalize_actions check_actions text_eq trim_space is_abs contains_any mem_text base
wrong_binary = refl
