-- ===== src/Thresholds/Detection.antt =====
-- How the thresholds are found: `detectThresholds` and `splitThinkPadThresholds` of
-- internal/discovery/thresholds.go, without the sentences of advice, and `New` of
-- internal/thresholds/controller.go.
pub mod Paths
use lap_guard.Base.{
  ℤ, Bool, true, false, ◌&&◌, ◌||◌, not, Option, none, some, List, [], ◌∷◌, Text, codes, text_eq,
  contains, if◌then◌else◌,
}
use lap_guard.Config.Normalize.{base}
use lap_guard.Thresholds.{Controller, method_sysfs, method_tlp, method_none}

pub record ThresholdPlan : Type 0 where
  pub method : Text
  pub detection_method : Text
  pub start_path : Text
  pub end_path : Text
  pub battery_name : Text
  pub start : Option ℤ
  pub end : Option ℤ
  pub writable : Bool

-- What the scan of the battery found: empty paths where it has no such file.
pub record Scan : Type 0 where
  pub primary_name : Text
  pub charge_start_path : Text
  pub charge_end_path : Text
  pub charge_start : Option ℤ
  pub charge_end : Option ℤ

-- The rest of the machine: the paths of thinkpad_acpi, whether a file can be written, the number that
-- a file starts with, and whether TLP is there and can set thresholds.
pub record Host : Type 0 where
  pub thinkpad_paths : List Text
  pub is_writable : Text → Bool
  pub number_in : Text → Option ℤ
  pub has_tlp : Bool
  pub tlp_can_set : Bool

-- One turn of the loop.
abbrev pub placed : Text × Text → Text → Text × Text
placed (start, end) p =
    if contains (base p) (codes "start")
    then (p, end)
    else if contains (base p) (codes "end") || contains (base p) (codes "stop")
    then (start, p)
    else if text_eq start []
    then (p, end)
    else if text_eq end []
    then (start, p)
    else (start, end)

abbrev pub split_from : Text × Text → List Text → Text × Text
split_from found [] = found
split_from found (p ∷ paths) = split_from (placed found p) paths

unfoldable pub split_thinkpad_thresholds : List Text → Text × Text
split_thinkpad_thresholds paths = split_from ([], []) paths

abbrev pub first_non_empty : Text → Text → Text
first_non_empty a b = if text_eq a [] then b else a

-- `fileWritable` and `readThresholdValue`, which take an empty path for no file.
abbrev pub file_writable : Host → Text → Bool
file_writable h path = if text_eq path [] then false else h.is_writable path

abbrev pub threshold_value : Host → Text → Option ℤ
threshold_value h path = if text_eq path [] then none else h.number_in path

abbrev pub no_paths : List Text → Bool
no_paths [] = true
no_paths (p ∷ paths) = false

abbrev pub bare_plan : Scan → ThresholdPlan
bare_plan hw = record {
  method = method_none;
  detection_method = codes "sysfs+tlp+thinkpad_acpi";
  start_path = [];
  end_path = [];
  battery_name = hw.primary_name;
  start = none;
  end = none;
  writable = false;
}

abbrev pub battery_plan : Host → Scan → ThresholdPlan
battery_plan h hw = record (bare_plan hw) {
  start_path = hw.charge_start_path;
  end_path = hw.charge_end_path;
  start = hw.charge_start;
  end = hw.charge_end;
  writable = file_writable h (first_non_empty hw.charge_start_path hw.charge_end_path);
  method = method_sysfs;
  detection_method = codes "sysfs_native";
}

abbrev pub thinkpad_plan : Host → Scan → Text × Text → ThresholdPlan
thinkpad_plan h hw (start, end) = record (bare_plan hw) {
  start_path = start;
  end_path = end;
  start = threshold_value h start;
  end = threshold_value h end;
  writable = file_writable h (first_non_empty start end);
  method = method_sysfs;
  detection_method = codes "sysfs_native";
}

abbrev pub tlp_plan : Scan → ThresholdPlan
tlp_plan hw = record (bare_plan hw) {
  method = method_tlp;
  detection_method = codes "tlp";
  writable = true;
}

unfoldable pub detect_thresholds : Host → Scan → ThresholdPlan
unfolding split_thinkpad_thresholds
detect_thresholds h hw =
    if not (text_eq hw.charge_start_path []) || not (text_eq hw.charge_end_path [])
    then battery_plan h hw
    else if not (no_paths h.thinkpad_paths)
    then thinkpad_plan h hw (split_thinkpad_thresholds h.thinkpad_paths)
    else if h.has_tlp && h.tlp_can_set
    then tlp_plan hw
    else bare_plan hw

-- `New`, with a runner.
abbrev pub new : ThresholdPlan → Controller
new plan = record {
  method = plan.method;
  start_path = plan.start_path;
  end_path = plan.end_path;
  battery_name = plan.battery_name;
}
