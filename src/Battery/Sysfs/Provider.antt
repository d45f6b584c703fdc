-- ===== src/Battery/Sysfs/Provider.antt =====
-- `Snapshot` of internal/battery/sysfs_provider.go.
use lap_guard.Base.{
  pos, ℕ, ℤ, Bool, true, false, ◌||◌, ◌&&◌, not, Option, none, some, List, [], ◌∷◌, ◌++◌, Text,
  codes, is_some, Result, ok, err, if◌then◌else◌,
}
use lap_guard.Battery.Compute.{Float, Number, unknown, power_unavailable, naming_none, no_method}
use lap_guard.Battery.Reading.{Battery, Snapshot, Warning, enrich, present_zero}
use lap_guard.Battery.Sysfs.{
  Field, Files, read_string_field, read_int_field, read_threshold, list_attr_names, read_present,
  resolve_battery_dir,
}

-- The tracked fields that hold a number.
abbrev pub number_fields : List Text
number_fields =
    codes "capacity"
    ∷ codes "voltage_now"
    ∷ codes "current_now"
    ∷ codes "power_now"
    ∷ codes "energy_now"
    ∷ codes "energy_full"
    ∷ codes "energy_full_design"
    ∷ codes "charge_now"
    ∷ codes "charge_full"
    ∷ codes "charge_full_design"
    ∷ codes "cycle_count"
    ∷ codes "temp"
    ∷ codes "alarm"
    ∷ []

-- `TrackedFields`
abbrev pub tracked_fields : List Text
tracked_fields = codes "status" ∷ number_fields

abbrev blank : {A : Type 0} → Text → Battery A
blank name = record {
  name = name;
  present = false;
  status = [];
  capacity_percent = none;
  capacity_level = [];
  voltage_now_v = none;
  current_now_a = none;
  power_now_w = none;
  energy_now_wh = none;
  energy_full_wh = none;
  energy_full_design_wh = none;
  charge_now_ah = none;
  charge_full_ah = none;
  charge_full_design_ah = none;
  cycle_count = none;
  temperature_c = none;
  alarm = none;
  manufacturer = [];
  model_name = [];
  serial_number = [];
  technology = [];
  charge_start_threshold = none;
  charge_end_threshold = none;
  power_w = none;
  battery_power_w = none;
  power_direction = unknown;
  power_label = power_unavailable;
  health_percent = none;
  naming = naming_none;
  power_calculation = no_method;
  estimated_runtime_seconds = none;
  estimated_runtime_hours = none;
  estimated_runtime_available = false;
  estimated_runtime_reason = none;
}

abbrev only : Option Warning → List Warning
only none = []
only (some w) = w ∷ []

abbrev pub noted : {A : Type 0} → Text → Bool → Option Warning → Snapshot A → Snapshot A
noted f missing w s = record s {
  missing_fields = s.missing_fields ++ (if missing then f ∷ [] else []);
  warnings = s.warnings ++ only w;
}

-- The value of a text that is read without a warning, else the empty text.
abbrev usable : Field Text → Text
usable f = if f.is_missing || is_some f.warning then [] else f.value

module _ (F : Float) (fs : Files) where
  abbrev S : Type 0
  S = Snapshot (Number F)

  -- `microToUnit` and `deciToUnit`
  abbrev micro : Option ℤ → Option (Number F)
  micro none = none
  micro (some n) = some (F.over (F.of_int n) (F.of_int (pos 1000000)))

  abbrev deci : Option ℤ → Option (Number F)
  deci none = none
  deci (some n) = some (F.over (F.of_int n) (F.of_int (pos 10)))

  -- A number of the battery's directory: noted where it is missing or has a warning, else set. What
  -- is not set stays `none`.
  unfoldable pub measured :
      Text → Text → (Option ℤ → Battery (Number F) → Battery (Number F)) → S → S
  measured dir f set s =
      let r = read_int_field fs dir f in
      noted f r.is_missing r.warning (record s { battery = set r.value s.battery })

  unfoldable pub read_status : Text → S → S
  read_status dir s =
      let r = read_string_field fs dir (codes "status") in
      record (noted (codes "status") r.is_missing r.warning s) {
        battery = record s.battery { status = r.value };
      }

  unfoldable pub read_capacity_level : Text → S → S
  read_capacity_level dir s = record s {
    battery = record s.battery {
      capacity_level = usable (read_string_field fs dir (codes "capacity_level"));
    };
  }

  abbrev pub read_electric : Text → S → S
  read_electric dir s =
      measured dir (codes "power_now") (λ v b. record b { power_now_w = micro v })
        (measured dir (codes "current_now") (λ v b. record b { current_now_a = micro v })
          (measured dir (codes "voltage_now") (λ v b. record b { voltage_now_v = micro v }) (s)))

  abbrev pub read_energy : Text → S → S
  read_energy dir s =
      measured dir (codes "energy_full_design")
        (λ v b. record b { energy_full_design_wh = micro v })
        (measured dir (codes "energy_full") (λ v b. record b { energy_full_wh = micro v })
          (measured dir (codes "energy_now") (λ v b. record b { energy_now_wh = micro v }) (s)))

  abbrev pub read_charge : Text → S → S
  read_charge dir s =
      measured dir (codes "charge_full_design")
        (λ v b. record b { charge_full_design_ah = micro v })
        (measured dir (codes "charge_full") (λ v b. record b { charge_full_ah = micro v })
          (measured dir (codes "charge_now") (λ v b. record b { charge_now_ah = micro v }) (s)))

  abbrev pub read_rest : Text → S → S
  read_rest dir s =
      measured dir (codes "alarm") (λ v b. record b { alarm = v })
        (measured dir (codes "temp") (λ v b. record b { temperature_c = deci v })
          (measured dir (codes "cycle_count") (λ v b. record b { cycle_count = v }) (s)))

  abbrev pub read_capacity : Text → S → S
  read_capacity dir s = measured dir (codes "capacity") (λ v b. record b { capacity_percent = v }) s

  -- Identity and thresholds, which are never noted.
  unfoldable pub read_identity : Text → S → S
  read_identity dir s = record s {
    battery = record s.battery {
      manufacturer = usable (read_string_field fs dir (codes "manufacturer"));
      model_name = usable (read_string_field fs dir (codes "model_name"));
      serial_number = usable (read_string_field fs dir (codes "serial_number"));
      technology = usable (read_string_field fs dir (codes "technology"));
      charge_start_threshold =
          read_threshold fs dir (codes "charge_control_start_threshold")
            (codes "charge_start_threshold");
      charge_end_threshold =
          read_threshold fs dir (codes "charge_control_end_threshold")
            (codes "charge_stop_threshold");
    };
  }

  -- All attributes of a battery, in the order of the source.
  unfoldable pub read_all : Text → S → S
  read_all dir s = read_identity dir (
      read_rest dir (
        read_charge dir (
          read_energy dir
            (read_electric dir (read_capacity_level dir (read_capacity dir (read_status dir s)))))))

  abbrev pub started : ℕ → Text → S
  started now name = record {
    timestamp = now;
    battery = blank name;
    available_fields = [];
    missing_fields = [];
    warnings = [];
  }

  abbrev pub not_resolved : ℕ → Text → Warning → S
  not_resolved now name w = record (started now name) {
    missing_fields = tracked_fields;
    warnings = w ∷ [];
  }

  -- What `readPresent` said: absent without a doubt, or else present.
  unfoldable pub absent_or_read : Text → Bool × Bool × Option Warning → S → S
  absent_or_read dir (present, known, w) s =
      let s1 = record s {
        warnings = s.warnings ++ only w;
        available_fields = list_attr_names fs dir;
      } in
      if known && not present
      then record s1 { warnings = s1.warnings ++ (present_zero ∷ []) }
      else read_all dir (record s1 { battery = record s1.battery { present = true } })

  unfoldable pub resolved : ℕ → Text → Result Warning Text → S
  resolved now name (err w) = not_resolved now name w
  resolved now name (ok dir) = absent_or_read dir (read_present fs dir) (started now dir)

  -- `Snapshot`, while its context lasts, at the time `now`.
  unfoldable pub snapshot : Text → ℕ → S
  unfolding resolve_battery_dir enrich
  snapshot name now = enrich F (resolved now name (resolve_battery_dir fs name))
