-- ===== src/Battery/Reading.antt =====
-- The records of internal/battery/provider.go, and `enrich`, which adds the derived readings.
use lap_guard.Base.{
  ℕ, ℤ, Bool, false, ◌||◌, ◌&&◌, Option, none, some, List, [], ◌∷◌, Text, codes, text_eq, mem_text,
  is_some, if◌then◌else◌,
}
use lap_guard.Battery.Compute.{
  Float, Number, Direction, PowerLabel, Naming, PowerMethod, RuntimeReason, power_watts,
  power_magnitude, classify_power_direction, power_calculation_method, naming_convention,
  health_percent, charge_to_energy_wh, estimate_runtime,
}

-- `A` is the type of floats. A text that is missing is empty.
pub record Battery (A : Type 0) : Type 0 where
  pub name : Text
  pub present : Bool
  pub status : Text
  pub capacity_percent : Option ℤ
  pub capacity_level : Text
  pub voltage_now_v : Option A
  pub current_now_a : Option A
  pub power_now_w : Option A
  pub energy_now_wh : Option A
  pub energy_full_wh : Option A
  pub energy_full_design_wh : Option A
  pub charge_now_ah : Option A
  pub charge_full_ah : Option A
  pub charge_full_design_ah : Option A
  pub cycle_count : Option ℤ
  pub temperature_c : Option A
  pub alarm : Option ℤ
  pub manufacturer : Text
  pub model_name : Text
  pub serial_number : Text
  pub technology : Text
  pub charge_start_threshold : Option ℤ
  pub charge_end_threshold : Option ℤ
  pub power_w : Option A
  pub battery_power_w : Option A
  pub power_direction : Direction
  pub power_label : PowerLabel
  pub health_percent : Option A
  pub naming : Naming
  pub power_calculation : PowerMethod
  pub estimated_runtime_seconds : Option ℤ
  pub estimated_runtime_hours : Option A
  pub estimated_runtime_available : Bool
  pub estimated_runtime_reason : Option RuntimeReason

-- What stands in a warning.
pub data Warning : Type 0 where
  no_root root_failed root_not_directory root_unreadable : Warning
  battery_not_found battery_failed battery_not_directory no_battery_under_root : Warning
  present_zero present_denied present_failed : Warning
  present_unexpected : Text → Warning
  permission_denied : Text → Warning
  read_failed : Text → Warning
  file_empty : Text → Warning
  not_an_integer : Text → Text → Warning

pub record Snapshot (A : Type 0) : Type 0 where
  pub timestamp : ℕ
  pub battery : Battery A
  pub available_fields : List Text
  pub missing_fields : List Text
  pub warnings : List Warning

pub record Probe : Type 0 where
  pub battery_present : Bool
  pub battery_name : Text
  pub fields : List Text
  pub naming_of : Option Naming
  pub power_of : Option PowerMethod

-- `equivalentFields`
unfoldable pub equivalent : Text → Option Text
unfolding text_eq
equivalent f =
    if text_eq f (codes "energy_now")
    then some (codes "charge_now")
    else if text_eq f (codes "energy_full")
    then some (codes "charge_full")
    else if text_eq f (codes "energy_full_design")
    then some (codes "charge_full_design")
    else if text_eq f (codes "charge_now")
    then some (codes "energy_now")
    else if text_eq f (codes "charge_full")
    then some (codes "energy_full")
    else if text_eq f (codes "charge_full_design")
    then some (codes "energy_full_design")
    else none

abbrev covered_by : Option Text → List Text → Bool
covered_by none available = false
covered_by (some f) available = mem_text f available

-- The equivalent of a field is available.
abbrev pub is_covered : List Text → Text → Bool
is_covered available f = covered_by (equivalent f) available

unfoldable pub filter_equivalent_missing : List Text → List Text → List Text
filter_equivalent_missing [] available = []
filter_equivalent_missing (f ∷ missing) available =
    let rest = filter_equivalent_missing missing available in
    if is_covered available f then rest else f ∷ rest

module _ (F : Float) where
  unfoldable pub or_charge :
      Option (Number F) → Option (Number F) → Option (Number F) → Option (Number F)
  or_charge (some wh) ah volts = some wh
  or_charge none ah volts = charge_to_energy_wh F ah volts

  abbrev pub health : Battery (Number F) → Option (Number F)
  health b =
      if is_some b.energy_full_wh && is_some b.energy_full_design_wh
      then health_percent F b.energy_full_wh b.energy_full_design_wh
      else health_percent F b.charge_full_ah b.charge_full_design_ah

  -- The power, its direction, the methods, the health and the energies.
  unfoldable pub with_power : Battery (Number F) → Battery (Number F)
  with_power b =
      let power = power_watts F b.power_now_w b.voltage_now_v b.current_now_a b.status in
      let direction = classify_power_direction F b.status b.current_now_a power in
      record b {
        power_w = power;
        battery_power_w = power_magnitude F power;
        power_direction = direction.0;
        power_label = direction.1;
        power_calculation =
            power_calculation_method (is_some b.power_now_w)
              (is_some b.voltage_now_v && is_some b.current_now_a);
        naming =
            naming_convention
              (is_some b.energy_full_wh
                || is_some b.energy_now_wh
                || is_some b.energy_full_design_wh)
              (is_some b.charge_full_ah
                || is_some b.charge_now_ah
                || is_some b.charge_full_design_ah);
        health_percent = health b;
        energy_now_wh = or_charge b.energy_now_wh b.charge_now_ah b.voltage_now_v;
        energy_full_wh = or_charge b.energy_full_wh b.charge_full_ah b.voltage_now_v;
        energy_full_design_wh =
            or_charge b.energy_full_design_wh b.charge_full_design_ah b.voltage_now_v;
      }

  unfoldable pub with_runtime : Battery (Number F) → Battery (Number F)
  with_runtime b =
      let e = estimate_runtime F b.present b.status b.energy_now_wh b.power_w in
      record b {
        estimated_runtime_available = e.available;
        estimated_runtime_seconds = e.seconds;
        estimated_runtime_hours = e.hours;
        estimated_runtime_reason = some e.reason;
      }

  unfoldable pub enrich : Snapshot (Number F) → Snapshot (Number F)
  unfolding with_power with_runtime filter_equivalent_missing
  enrich s = record s {
    battery = with_runtime (with_power s.battery);
    missing_fields = filter_equivalent_missing s.missing_fields s.available_fields;
  }
