-- ===== src/Discovery/Tools/Examples.antt =====
-- What some outputs of tlp-stat say.
use lap_guard.Base.{◌≡◌, refl, true, false, codes, contains, has_prefix, to_lower}
use lap_guard.Discovery.Tools.{tlp_output_supports_thresholds}

one_backend_active :
    tlp_output_supports_thresholds (
      codes
        "tpacpi-bat = inactive (unsupported hardware); natacpi = active (data, thresholds); charge thresholds")
    ≡ true
unfolding tlp_output_supports_thresholds contains has_prefix to_lower
one_backend_active = refl

none_active :
    tlp_output_supports_thresholds (codes "natacpi = inactive (unsupported hardware)") ≡ false
unfolding tlp_output_supports_thresholds contains has_prefix to_lower
none_active = refl
