-- ===== src/Battery/Compute.antt =====
-- Derived readings of internal/battery/compute.go: power, its direction, health and the runtime left.
mod Power
mod Runtime
pub mod Examples
use lap_guard.Base.{
  ℤ, pos, ltb_ℤ, Bool, true, false, ◌&&◌, ◌||◌, not, Option, none, some, Text, codes, text_eq,
  trim_space, to_lower, mem_text, List, [], ◌∷◌, if◌then◌else◌,
}

-- Go's float64 as far as the code uses it: `of_int` converts, `below` is `<`, `round` is
-- `int(math.Round(x))`, and `tiny` stands for 1e-9.
pub record Float : Type 1 where
  pub Carrier : Type 0
  pub of_int : ℤ → Carrier
  pub times : Carrier → Carrier → Carrier
  pub over : Carrier → Carrier → Carrier
  pub negated : Carrier → Carrier
  pub absolute : Carrier → Carrier
  pub below : Carrier → Carrier → Bool
  pub equal : Carrier → Carrier → Bool
  pub is_nan : Carrier → Bool
  pub is_inf : Carrier → Bool
  pub round : Carrier → ℤ
  pub tiny : Carrier

pub data Direction : Type 0 where
  charge discharge idle unknown : Direction

pub data PowerLabel : Type 0 where
  charging_power discharge_power battery_idle power_unavailable : PowerLabel

pub data Naming : Type 0 where
  naming_energy naming_charge naming_both naming_none : Naming

pub data PowerMethod : Type 0 where
  power_now current_voltage no_method : PowerMethod

pub data RuntimeReason : Type 0 where
  while_discharging on_ac zero_power no_power no_energy no_battery : RuntimeReason

pub record RuntimeEstimate (A : Type 0) : Type 0 where
  pub available : Bool
  pub seconds : Option ℤ
  pub hours : Option A
  pub reason : RuntimeReason

-- `PowerCalculationMethod`
unfoldable pub power_calculation_method : Bool → Bool → PowerMethod
power_calculation_method has_power has_current =
    if has_power then power_now else if has_current then current_voltage else no_method

-- `NamingConvention`
unfoldable pub naming_convention : Bool → Bool → Naming
naming_convention has_energy has_charge =
    if has_energy && has_charge
    then naming_both
    else if has_energy
    then naming_energy
    else if has_charge
    then naming_charge
    else naming_none

abbrev pub clean_status : Text → Text
clean_status status = to_lower (trim_space status)

abbrev pub charging_pair : Direction × PowerLabel
charging_pair = (charge, charging_power)

abbrev pub discharging_pair : Direction × PowerLabel
discharging_pair = (discharge, discharge_power)

abbrev pub idle_pair : Direction × PowerLabel
idle_pair = (idle, battery_idle)

abbrev unavailable : {A : Type 0} → RuntimeReason → RuntimeEstimate A
unavailable why = record { available = false; seconds = none; hours = none; reason = why }

abbrev pub ac_statuses : List Text
ac_statuses = codes "charging" ∷ codes "full" ∷ codes "not charging" ∷ []

module _ (F : Float) where
  abbrev pub Number : Type 0
  Number = F.Carrier

  abbrev pub float_zero : Number
  float_zero = F.of_int (pos 0)

  abbrev pub is_positive : Number → Bool
  is_positive x = F.below float_zero x

  abbrev pub is_negative : Number → Bool
  is_negative x = F.below x float_zero

  -- `x <= 0`
  abbrev pub at_most_zero : Number → Bool
  at_most_zero x = is_negative x || F.equal x float_zero

  abbrev pub not_finite : Number → Bool
  not_finite x = F.is_nan x || F.is_inf x

  abbrev sign_by_current : Number → Option Number → Number
  sign_by_current watts none = watts
  sign_by_current watts (some c) =
      if is_negative c then F.negated watts else if is_positive c then watts else watts

  unfoldable pub apply_power_sign : Number → Option Number → Text → Number
  apply_power_sign watts current status =
      let s = clean_status status in
      if text_eq s (codes "discharging")
      then F.negated watts
      else if text_eq s (codes "charging")
      then watts
      else sign_by_current watts current

  unfoldable pub power_watts : Option Number → Option Number → Option Number → Text → Option Number
  unfolding apply_power_sign
  power_watts (some p) voltage current status =
      some (apply_power_sign (F.absolute p) current status)
  power_watts none (some v) (some c) status = some (F.times v c)
  power_watts none (some v) none status = none
  power_watts none none current status = none

  unfoldable pub nearly_zero : Number → Bool
  nearly_zero x = F.below (F.absolute x) F.tiny

  unfoldable pub power_magnitude : Option Number → Option Number
  power_magnitude none = none
  power_magnitude (some p) = some (F.absolute p)

  unfoldable pub when_not_charging : Option Number → Direction × PowerLabel
  when_not_charging none = idle_pair
  when_not_charging (some c) =
      if nearly_zero c then idle_pair else if is_positive c then charging_pair else discharging_pair

  -- The last two parts of `ClassifyPowerDirection`: by the current, else by the power.
  unfoldable pub by_sign : Number → Direction × PowerLabel
  by_sign x =
      if is_positive x && not (nearly_zero x)
      then charging_pair
      else if is_negative x
      then discharging_pair
      else idle_pair

  abbrev pub by_numbers : Option Number → Option Number → Direction × PowerLabel
  by_numbers (some c) power = by_sign c
  by_numbers none (some p) = by_sign p
  by_numbers none none = (unknown, power_unavailable)

  unfoldable pub classify_power_direction :
      Text → Option Number → Option Number → Direction × PowerLabel
  classify_power_direction status current power =
      let s = clean_status status in
      if text_eq s (codes "charging")
      then charging_pair
      else if text_eq s (codes "discharging")
      then discharging_pair
      else if text_eq s (codes "full")
      then idle_pair
      else if text_eq s (codes "not charging")
      then when_not_charging current
      else by_numbers current power

  abbrev finite : Number → Option Number
  finite x = if not_finite x then none else some x

  unfoldable pub health_percent : Option Number → Option Number → Option Number
  health_percent (some full) (some design) =
      if F.equal design float_zero || not_finite design
      then none
      else finite (F.times (F.over full design) (F.of_int (pos 100)))
  health_percent (some full) none = none
  health_percent none design = none

  unfoldable pub charge_to_energy_wh : Option Number → Option Number → Option Number
  charge_to_energy_wh (some ah) (some voltage) = finite (F.times ah voltage)
  charge_to_energy_wh (some ah) none = none
  charge_to_energy_wh none voltage = none

  abbrev per_hour : Number
  per_hour = F.of_int (pos 3600)

  abbrev pub seconds_left : Number → Number → Number
  seconds_left energy watts = F.times (F.over energy watts) per_hour

  abbrev pub whole_seconds : Number → ℤ
  whole_seconds sec = let n = F.round sec in if ltb_ℤ n (pos 1) then pos 1 else n

  abbrev runtime_of : Number → RuntimeEstimate Number
  runtime_of sec = if not_finite sec || at_most_zero sec then unavailable no_power else record {
    available = true;
    seconds = some (whole_seconds sec);
    hours = some (F.over (F.of_int (whole_seconds sec)) per_hour);
    reason = while_discharging;
  }

  abbrev runtime_at : Number → Option Number → RuntimeEstimate Number
  runtime_at energy none = unavailable no_power
  runtime_at energy (some power) =
      if not_finite power
      then unavailable no_power
      else if F.equal (F.absolute power) float_zero
      then unavailable zero_power
      else runtime_of (seconds_left energy (F.absolute power))

  abbrev runtime_from : Option Number → Option Number → RuntimeEstimate Number
  runtime_from none power = unavailable no_energy
  runtime_from (some energy) power =
      if at_most_zero energy || not_finite energy
      then unavailable no_energy
      else runtime_at energy power

  unfoldable pub estimate_runtime :
      Bool → Text → Option Number → Option Number → RuntimeEstimate Number
  estimate_runtime present status energy power =
      if not present
      then unavailable no_battery
      else if mem_text (clean_status status) ac_statuses
      then unavailable on_ac
      else if text_eq (clean_status status) (codes "discharging")
      then runtime_from energy power
      else unavailable while_discharging
