-- ===== src/Battery/Compute/Power.antt =====
-- The sign of the power against its direction.
use lap_guard.Base.{
  ◌≡◌, true, false, Option, none, some, Text, codes, text_eq, arith, text_eq→eq, refl,
}
use lap_guard.Battery.Compute.{
  when_not_charging, idle_pair, by_sign, Float, Number, charge, discharge, clean_status,
  is_positive, is_negative, nearly_zero, apply_power_sign, power_watts, classify_power_direction,
}

-- What comparisons of floats are relied on for: a magnitude is not negative and its opposite not
-- positive; a number that is not positive and not tiny is negative, unless it is no number; and a
-- negative number is not positive.
pub record IsOrdered (F : Float) : Type 0 where
  pub absolute_not_negative : (x : Number F) → is_negative F (F.absolute x) ≡ false
  pub negated_not_positive : (x : Number F) → is_positive F (F.negated (F.absolute x)) ≡ false
  pub one_sign : (x : Number F) → is_negative F x ≡ true → is_positive F x ≡ false
  pub trichotomy :
      (x : Number F)
      → F.is_nan x ≡ false
      → nearly_zero F x ≡ false
      → is_positive F x ≡ false
      → is_negative F x ≡ true

abbrev IsNumber : (F : Float) → Option (Number F) → Type 0
IsNumber F none = Unit
IsNumber F (some x) = F.is_nan x ≡ false

charging_not_discharging :
    (s : Text) → text_eq s (codes "charging") ≡ true → text_eq s (codes "discharging") ≡ false
unfolding text_eq
charging_not_discharging s h = rw (text_eq→eq s (codes "charging") h) refl

module _ (F : Float) (O : IsOrdered F) where
  by_sign_lem :
      (x : Number F)
      → let d = (by_sign F x).0 in
        (d ≡ charge → is_positive F x ≡ true) × (d ≡ discharge → is_negative F x ≡ true)
  unfolding by_sign
  by_sign_lem x = (λ h. ground arith, λ h. ground arith)

  when_not_charging_lem :
      (c : Number F)
      → F.is_nan c ≡ false
      → let d = (when_not_charging F (some c)).0 in
        (d ≡ charge → is_positive F c ≡ true) × (d ≡ discharge → is_negative F c ≡ true)
  unfolding when_not_charging
  when_not_charging_lem c n = (λ h. ground arith, λ h. ground (arith, O.trichotomy c n))

  without_current : when_not_charging F none ≡ idle_pair
  unfolding when_not_charging
  without_current = refl

  -- With `power_now` read, and a current that is a number if it is read: a power whose direction is
  -- to charge is not negative, and one whose direction is to discharge is not positive.
  pub power_sign-fits :
      (p : Number F) (voltage current : Option (Number F)) (status : Text) (w : Number F)
      → IsNumber F current
      → power_watts F (some p) voltage current status ≡ some w
      → let d = (classify_power_direction F status current (some w)).0 in
        (d ≡ charge → is_negative F w ≡ false) × (d ≡ discharge → is_positive F w ≡ false)
  unfolding power_watts apply_power_sign classify_power_direction
  power_sign-fits p voltage none status w n h =
      let e = charging_not_discharging (clean_status status) in
      let a = O.absolute_not_negative p in
      let b = O.negated_not_positive p in
      let u = O.one_sign w in
      let v = (by_sign_lem w).1 in
      (λ k. ground (arith, e, a, b, u), λ k. ground (arith, e, a, b, u, v, without_current))
  power_sign-fits p voltage (some c) status w n h =
      let e = charging_not_discharging (clean_status status) in
      let a = O.absolute_not_negative p in
      let b = O.negated_not_positive p in
      let s = by_sign_lem c in
      let t = when_not_charging_lem c n in
      let u = O.one_sign c in
      (λ k. ground (arith, e, a, b, s, t, u), λ k. ground (arith, e, a, b, s, t, u))
