-- ===== src/Battery/Sysfs/Probing.antt =====
-- `Probe` of internal/battery/sysfs_provider.go.
use lap_guard.Base.{
  Bool, true, false, ◌||◌, ◌&&◌, not, Option, none, some, List, [], ◌∷◌, Text, codes, text_eq,
  mem_text, has_prefix, Result, ok, err, if◌then◌else◌,
}
use lap_guard.Battery.Compute.{Naming, PowerMethod, naming_convention, power_calculation_method}
use lap_guard.Battery.Reading.{Probe, Warning}
use lap_guard.Battery.Sysfs.{Files, list_attr_names, read_present, resolve_battery_dir}

unfoldable pub is_charge_field : Text → Bool
is_charge_field f =
    (has_prefix f (codes "charge_")
      && not (has_prefix f (codes "charge_control"))
      && not (text_eq f (codes "charge_start_threshold"))
      && not (text_eq f (codes "charge_stop_threshold")))
    || (text_eq f (codes "charge_now")
        || text_eq f (codes "charge_full")
        || text_eq f (codes "charge_full_design"))

-- The two marks of the loop of `detectNaming`.
unfoldable pub naming_marks : List Text → Bool × Bool → Bool × Bool
naming_marks [] marks = marks
naming_marks (f ∷ fields) (energy, charge) = naming_marks fields (
    if has_prefix f (codes "energy_")
    then (true, charge)
    else (energy, charge || is_charge_field f))

unfoldable pub detect_naming : List Text → Naming
detect_naming fields =
    let marks = naming_marks fields (false, false) in naming_convention marks.0 marks.1

unfoldable pub detect_power_method : List Text → PowerMethod
unfolding mem_text
detect_power_method fields =
    power_calculation_method (mem_text (codes "power_now") fields)
      (mem_text (codes "current_now") fields && mem_text (codes "voltage_now") fields)

abbrev blank_probe : Probe
blank_probe = record {
  battery_present = false;
  battery_name = [];
  fields = [];
  naming_of = none;
  power_of = none;
}

unfoldable pub probe_present : List Text → Bool × Bool × Option Warning → Probe → Probe
probe_present fields (present, known, w) p =
    if known && not present then record p { fields = fields } else record p {
      battery_present = true;
      fields = fields;
      naming_of = some (detect_naming fields);
      power_of = some (detect_power_method fields);
    }

unfoldable pub probed : Files → Result Warning Text → Probe
probed fs (err w) = blank_probe
probed fs (ok dir) =
    probe_present (list_attr_names fs dir) (read_present fs dir)
      (record blank_probe { battery_name = dir })

-- `Probe`
unfoldable pub probe : Files → Text → Probe
unfolding resolve_battery_dir
probe fs name = probed fs (resolve_battery_dir fs name)
