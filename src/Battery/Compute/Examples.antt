-- ===== src/Battery/Compute/Examples.antt =====
-- Integers in place of floats, with no infinity and no NaN; 1e-9 becomes 1.
use lap_guard.Base.{
  text_eq, trim_space, to_lower, ℤ, pos, negsuc, pos_part, neg_part, sub_ℕ, ltb_ℤ, leb_ℤ, ◌*◌, ◌/◌,
  ◌+◌, ◌≡◌, ◌↔◌, refl, true, false, none, some, codes, arith, ◌&&◌,
}
use lap_guard.Battery.Compute.{
  Float, estimate_runtime, classify_power_direction, power_watts, discharge, nearly_zero,
}
use lap_guard.Battery.Compute.Runtime.{IsRunning, Left, estimate_runtime_lem}
use lap_guard.Battery.Compute.Power.{IsOrdered}

abbrev opposite : ℤ → ℤ
opposite n = sub_ℕ (neg_part n) (pos_part n)

abbrev magnitude : ℤ → ℤ
magnitude n = pos (pos_part n + neg_part n)

-- The product of the parts, for a multiplier that is not negative.
abbrev product : ℤ → ℤ → ℤ
product a b = sub_ℕ (pos_part a * pos_part b) (neg_part a * pos_part b)

abbrev quotient : ℤ → ℤ → ℤ
quotient a b = pos (pos_part a / pos_part b)

abbrev pub integers : Float
integers = record {
  Carrier = ℤ;
  of_int = λ n. n;
  times = product;
  over = quotient;
  negated = opposite;
  absolute = magnitude;
  below = ltb_ℤ;
  equal = λ a b. leb_ℤ a b && leb_ℤ b a;
  is_nan = λ n. false;
  is_inf = λ n. false;
  round = λ n. n;
  tiny = pos 1;
}

integers-IsOrdered : IsOrdered integers
unfolding nearly_zero
integers-IsOrdered = record {
  absolute_not_negative = λ x. ground arith;
  negated_not_positive = λ x. ground arith;
  one_sign = λ x h. ground arith;
  trichotomy = λ x h k l. ground arith;
}

estimate_runtime_lem_example :
    let e =
      estimate_runtime integers true (codes "Discharging") (some (pos 40)) (some (negsuc 9)) in
    ((e.available ≡ true)
      ↔ IsRunning integers true (codes "Discharging") (some (pos 40)) (some (negsuc 9)))
    × (e.available ≡ true → Left integers e)
    × (e.available ≡ false → (e.seconds ≡ none) × (e.hours ≡ none))
estimate_runtime_lem_example =
    estimate_runtime_lem integers true (codes "Discharging") (some (pos 40)) (some (negsuc 9))

-- Without `power_now`, a driver with an unsigned current shows a power above zero that discharges.
unsigned_current :
    (power_watts integers none (some (pos 12)) (some (pos 2)) (codes "Discharging") ≡ some (pos 24))
    × ((classify_power_direction integers (codes "Discharging") (some (pos 2)) (some (pos 24))).0
        ≡ discharge)
unfolding power_watts classify_power_direction to_lower trim_space text_eq
unsigned_current = (refl, refl)
