-- ===== src/Discovery/Tools.antt =====
-- The tools that the discovery looks for: tools.go of internal/discovery. Looking up a program,
-- running one, and the pattern of TLP's version are parameters.
mod Examples
use lap_guard.Base.{
  Bool, true, false, ◌&&◌, ◌||◌, not, Option, none, some, is_some, List, [], ◌∷◌, Text, codes,
  text_eq, to_lower, contains, if◌then◌else◌,
}

-- `combined` gives the output of a program, and whether it failed.
pub record Runner : Type 0 where
  pub look_path : Text → Option Text
  pub combined : Text → List Text → Text × Bool
  pub version_match : Text → Option Text

pub record ToolScan : Type 0 where
  pub tlp : Bool
  pub tlp_version : Text
  pub tlp_stat : Text
  pub tlp_can_set : Bool
  pub upower : Bool
  pub acpi : Bool
  pub tp_smapi : Bool
  pub i8kutils : Bool

abbrev is_path : Option Text → Bool
is_path none = false
is_path (some p) = not (text_eq p [])

abbrev has_tool : Runner → Text → Bool
has_tool r name = is_path (r.look_path name)

abbrev or_blank : Option Text → Text
or_blank none = []
or_blank (some v) = v

-- The version in the output of a program that did not fail.
abbrev version_from : Runner → Text × Bool → Text
version_from r (out, failed) = if failed then [] else or_blank (r.version_match out)

-- The first version that is not empty.
unfoldable pub first_version : Runner → List (Text × List Text) → Text
first_version r [] = []
first_version r ((name, args) ∷ rest) =
    let later = first_version r rest in
    let v = version_from r (r.combined name args) in if text_eq v [] then later else v

abbrev version_commands : List (Text × List Text)
version_commands =
    (codes "tlp", codes "--version" ∷ [])
    ∷ (codes "tlp-stat", codes "--version" ∷ [])
    ∷ (codes "tlp", codes "-v" ∷ [])
    ∷ (codes "tlp-stat", codes "-v" ∷ [])
    ∷ (codes "tlp-stat", codes "-s" ∷ [])
    ∷ []

unfoldable pub detect_tlp_version : Runner → Text
unfolding first_version
detect_tlp_version r = first_version r version_commands

-- `tlpOutputSupportsThresholds`
unfoldable pub tlp_output_supports_thresholds : Text → Bool
tlp_output_supports_thresholds text =
    let lower = to_lower text in
    if contains lower (codes "no thresholds") || contains lower (codes "no charge thresholds")
    then false
    else if contains lower (codes "unsupported hardware")
        && (not (contains lower (codes "active (start")) && not (contains lower (codes "= active")))
    then false
    else if contains lower (codes "cannot control") || contains lower (codes "not configurable")
    then false
    else if contains lower (codes "active (start")
        || (contains lower (codes "start =") && contains lower (codes "stop ="))
    then true
    else contains lower (codes "charge thresholds") && contains lower (codes "= active")

abbrev silent : Text × Bool → Bool
silent (out, failed) = failed && text_eq out []

-- The output that is looked at, `none` where both commands fail without one.
abbrev stat_output : Text × Bool → Text × Bool → Option Text
stat_output b s = if silent b then (if silent s then none else some s.0) else some b.0

abbrev supported : Option Text → Text × Bool
supported none = ([], false)
supported (some text) = (text, tlp_output_supports_thresholds text)

unfoldable pub tlp_threshold_support : Runner → Text × Bool
unfolding tlp_output_supports_thresholds
tlp_threshold_support r = supported (
    stat_output (r.combined (codes "tlp-stat") (codes "-b" ∷ []))
      (r.combined (codes "tlp-stat") (codes "-s" ∷ [])))

unfoldable pub detect_tools : Runner → ToolScan
unfolding detect_tlp_version tlp_threshold_support
detect_tools r =
    let tlp = has_tool r (codes "tlp") in
    let (stat, can) = tlp_threshold_support r in
    record {
      tlp = tlp;
      tlp_version = if tlp then detect_tlp_version r else [];
      tlp_stat = if tlp then stat else [];
      tlp_can_set = tlp && can;
      upower = has_tool r (codes "upower");
      acpi = has_tool r (codes "acpi");
      tp_smapi = has_tool r (codes "tp-smapi-cli") || has_tool r (codes "tpacpi-bat");
      i8kutils = has_tool r (codes "i8kctl") || has_tool r (codes "i8kfan");
    }
