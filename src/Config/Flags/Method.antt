-- ===== src/Config/Flags/Method.antt =====
-- `ResolveThresholdMethod` of internal/config/config.go.
use lap_guard.Base.{
  ◌&&◌, ◌||◌, not, Option, none, some, [], Text, codes, text_eq, trim_space, to_lower,
  if◌then◌else◌,
}

-- The three warnings, by what they say is unavailable.
pub data MethodWarning : Type 0 where
  hardware_reports_none : Text → MethodWarning
  sysfs_unavailable tlp_unavailable : Text → MethodWarning

abbrev pub Resolved : Type 0
Resolved = Text × Option MethodWarning

unfoldable pub resolve : Text → Text → Resolved
resolve wanted detected =
    if text_eq wanted [] || text_eq wanted (codes "auto")
    then (detected, none)
    else if text_eq wanted (codes "none")
    then (codes "none", none)
    else if text_eq wanted detected
    then (detected, none)
    else if text_eq detected (codes "none")
    then (codes "none", some (hardware_reports_none wanted))
    else if text_eq wanted (codes "sysfs") && not (text_eq detected (codes "sysfs"))
    then (detected, some (sysfs_unavailable detected))
    else if text_eq wanted (codes "tlp") && text_eq detected (codes "sysfs")
    then (codes "tlp", none)
    else if text_eq wanted (codes "tlp") && not (text_eq detected (codes "tlp"))
    then (detected, some (tlp_unavailable detected))
    else (detected, none)

unfoldable pub resolve_threshold_method : Text → Text → Resolved
unfolding resolve
resolve_threshold_method configured detected = resolve (to_lower (trim_space configured)) detected
