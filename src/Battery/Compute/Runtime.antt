-- ===== src/Battery/Compute/Runtime.antt =====
-- When a runtime is estimated, and what the estimate is.
use lap_guard.Base.{
  refl, text_eq→eq, mem_text, ℤ, pos, ◌≤ℤ◌, ◌≡◌, ◌↔◌, Bool, true, false, Option, none, some, Text,
  codes, text_eq, arith,
}
use lap_guard.Battery.Compute.{
  ac_statuses, Float, Number, RuntimeEstimate, clean_status, not_finite, at_most_zero, float_zero,
  seconds_left, whole_seconds, per_hour, estimate_runtime,
}

-- The battery discharges, its energy is a positive number, its power is a number other than zero,
-- and so the time left is a positive number.
pub record IsRunning (F : Float) (present : Bool) (status : Text) (energy power : Option (Number F))
    : Type 0 where
  pub watt_hours : Number F
  pub watts : Number F
  pub is_present : present ≡ true
  pub discharging : text_eq (clean_status status) (codes "discharging") ≡ true
  pub energy_known : energy ≡ some watt_hours
  pub energy_positive : at_most_zero F watt_hours ≡ false
  pub energy_finite : not_finite F watt_hours ≡ false
  pub power_known : power ≡ some watts
  pub power_finite : not_finite F watts ≡ false
  pub power_nonzero : F.equal (F.absolute watts) (float_zero F) ≡ false
  pub time_finite : not_finite F (seconds_left F watt_hours (F.absolute watts)) ≡ false
  pub time_positive : at_most_zero F (seconds_left F watt_hours (F.absolute watts)) ≡ false

abbrev pub Left : (F : Float) → RuntimeEstimate (Number F) → Type 0
Left F e =
    (n : ℤ) × (e.seconds ≡ some n)
    × (pos 1 ≤ℤ n)
    × (e.hours ≡ some (F.over (F.of_int n) (per_hour F)))

module _ (F : Float) where
  discharging_not_ac :
      (s : Text) → text_eq s (codes "discharging") ≡ true → mem_text s ac_statuses ≡ false
  unfolding mem_text text_eq
  discharging_not_ac s h = rw (text_eq→eq s (codes "discharging") h) refl

  estimate_runtime-Running :
      (present : Bool) (status : Text) (energy power : Option (Number F))
      → (estimate_runtime F present status energy power).available ≡ true
      → IsRunning F present status energy power
  unfolding estimate_runtime
  estimate_runtime-Running true status none power h = ground arith
  estimate_runtime-Running true status (some e) none h = ground arith
  estimate_runtime-Running true status (some e) (some p) h = record {
    watt_hours = e;
    watts = p;
    is_present = refl;
    discharging = ground arith;
    energy_known = refl;
    energy_positive = ground arith;
    energy_finite = ground arith;
    power_known = refl;
    power_finite = ground arith;
    power_nonzero = ground arith;
    time_finite = ground arith;
    time_positive = ground arith;
  }
  estimate_runtime-Running false status energy power h = ground arith

  running-available :
      (present : Bool) (status : Text) (energy power : Option (Number F))
      → IsRunning F present status energy power
      → (estimate_runtime F present status energy power).available ≡ true
  unfolding estimate_runtime
  running-available present status energy power r =
      rw (r.is_present, r.energy_known, r.power_known)
        (ground (
          arith,
          discharging_not_ac (clean_status status) r.discharging,
          r.discharging,
          r.energy_positive,
          r.energy_finite,
          r.power_finite,
          r.power_nonzero,
          r.time_finite,
          r.time_positive,
        ))

  whole_seconds_positive : (x : Number F) → pos 1 ≤ℤ whole_seconds F x
  whole_seconds_positive x = ground arith

  left-estimate :
      (present : Bool) (status : Text) (energy power : Option (Number F))
      → (estimate_runtime F present status energy power).available ≡ true
      → Left F (estimate_runtime F present status energy power)
  unfolding estimate_runtime
  left-estimate true status none power h = ground arith
  left-estimate true status (some e) none h = ground arith
  left-estimate true status (some e) (some p) h =
      let t = seconds_left F e (F.absolute p) in
      (whole_seconds F t, ground arith, whole_seconds_positive t, ground arith)
  left-estimate false status energy power h = ground arith

  no_estimate :
      (present : Bool) (status : Text) (energy power : Option (Number F))
      → let e = estimate_runtime F present status energy power in
        e.available ≡ false → (e.seconds ≡ none) × (e.hours ≡ none)
  unfolding estimate_runtime
  no_estimate true status none power h = ground arith
  no_estimate true status (some e) none h = ground arith
  no_estimate true status (some e) (some p) h = ground arith
  no_estimate false status energy power h = (refl, refl)

  -- A runtime is estimated exactly where a battery discharges with a positive energy and a power
  -- other than zero that give a positive and finite time. The estimate is then at least one second,
  -- with the hours to match; otherwise it has neither seconds nor hours.
  pub estimate_runtime_lem :
      (present : Bool) (status : Text) (energy power : Option (Number F))
      → let e = estimate_runtime F present status energy power in
        ((e.available ≡ true) ↔ IsRunning F present status energy power)
        × (e.available ≡ true → Left F e)
        × (e.available ≡ false → (e.seconds ≡ none) × (e.hours ≡ none))
  unfolding estimate_runtime
  estimate_runtime_lem present status energy power = (
    (
      estimate_runtime-Running present status energy power,
      running-available present status energy power,
    ),
    left-estimate present status energy power,
    no_estimate present status energy power,
  )
