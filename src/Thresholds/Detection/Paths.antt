-- ===== src/Thresholds/Detection/Paths.antt =====
-- A detected plan always leaves the controller something to do.
use lap_guard.Base.{
  ℤ, ◌≡◌, ◌≢◌, refl, true, false, ◌&&◌, ◌||◌, not, some, List, [], ◌∷◌, Text, text_eq, All, arith,
  Bool-cases, inl, inr,
}
use lap_guard.Thresholds.{
  Machine, Controller, paths_missing, unknown_method, method_of, method_sysfs, method_tlp,
  method_none, set_sysfs, set_tlp, set,
}
use lap_guard.Thresholds.Detection.{
  ThresholdPlan, Scan, Host, placed, split_from, split_thinkpad_thresholds, no_paths, battery_plan,
  thinkpad_plan, tlp_plan, bare_plan, detect_thresholds, new,
}

abbrev pub IsPath : Text → Type 0
IsPath p = text_eq p [] ≡ false

-- At least one of the two is a path.
abbrev Has : Text × Text → Type 0
Has (start, end) = (text_eq start [] && text_eq end []) ≡ false

placed-Has : (found : Text × Text) (p : Text) → IsPath p → Has (placed found p)
placed-Has (start, end) p h = ground arith

split_from-Has :
    (found : Text × Text) (paths : List Text)
    → All IsPath paths
    → Has found
    → Has (split_from found paths)
split_from-Has found [] h k = k
split_from-Has found (p ∷ paths) (q, h) k =
    split_from-Has (placed found p) paths h (placed-Has found p q)

split_thinkpad_thresholds-Has :
    (paths : List Text)
    → no_paths paths ≡ false
    → All IsPath paths
    → Has (split_thinkpad_thresholds paths)
unfolding split_thinkpad_thresholds
split_thinkpad_thresholds-Has [] n h = ground arith
split_thinkpad_thresholds-Has (p ∷ paths) n (q, h) =
    split_from-Has (placed ([], []) p) paths h (placed-Has ([], []) p q)

-- A controller that can be asked: its method is known, and for sysfs it has a path.
pub record IsUsable (c : Controller) : Type 0 where
  pub known :
      (text_eq (method_of c) method_sysfs
        || text_eq (method_of c) method_tlp
        || text_eq (method_of c) method_none)
      ≡ true
  pub has_path : text_eq (method_of c) method_sysfs ≡ true → Has (c.start_path, c.end_path)

plan_with_path :
    (plan : ThresholdPlan)
    → plan.method ≡ method_sysfs
    → Has (plan.start_path, plan.end_path)
    → IsUsable (new plan)
unfolding method_of text_eq
plan_with_path plan e k = record { known = rw e refl; has_path = λ h. k }

-- No text but sysfs stands for the files.
plan_without_path :
    (plan : ThresholdPlan)
    → (text_eq (method_of (new plan)) method_sysfs ≡ false)
    → ((text_eq (method_of (new plan)) method_tlp || text_eq (method_of (new plan)) method_none)
        ≡ true)
    → IsUsable (new plan)
plan_without_path plan e k = record { known = rw e k; has_path = λ h. ground arith }

detected-IsUsable :
    (h : Host) (hw : Scan) → All IsPath h.thinkpad_paths → IsUsable (new (detect_thresholds h hw))
unfolding detect_thresholds method_of text_eq
detected-IsUsable h hw all =
    elim (Bool-cases
      (not (text_eq hw.charge_start_path []) || not (text_eq hw.charge_end_path []))) [
        | inl a ↦ rw a (plan_with_path (battery_plan h hw) refl (ground arith))
        | inr a ↦ elim (Bool-cases (no_paths h.thinkpad_paths)) [
          | inl b ↦ elim (Bool-cases (h.has_tlp && h.tlp_can_set)) [
            | inl c ↦ rw (a, b, c) (plan_without_path (tlp_plan hw) refl refl)
            | inr c ↦ rw (a, b, c) (plan_without_path (bare_plan hw) refl refl)
          ]
          | inr b ↦
              rw (a, b)
                (plan_with_path (thinkpad_plan h hw (split_thinkpad_thresholds h.thinkpad_paths))
                  refl (split_thinkpad_thresholds-Has h.thinkpad_paths b all))
        ]
      ]

set_sysfs-has_path :
    (m : Machine) (c : Controller) (start end : ℤ) (s : m.State)
    → Has (c.start_path, c.end_path)
    → (set_sysfs m c start end s).1 ≢ some paths_missing
unfolding set_sysfs
set_sysfs-has_path m c start end s h = ground arith

set_sysfs-known :
    (m : Machine) (c : Controller) (start end : ℤ) (s : m.State)
    → (set_sysfs m c start end s).1 ≢ some unknown_method
unfolding set_sysfs
set_sysfs-known m c start end s = ground arith

set_tlp-known :
    (m : Machine) (c : Controller) (start end : ℤ) (s : m.State)
    → ((set_tlp m c start end s).1 ≢ some paths_missing)
      × ((set_tlp m c start end s).1 ≢ some unknown_method)
unfolding set_tlp
set_tlp-known m c start end s = (ground arith, ground arith)

usable-set :
    (m : Machine) (c : Controller) (start end : ℤ) (s : m.State)
    → IsUsable c
    → let e = (set m c start end s).1 in (e ≢ some paths_missing) × (e ≢ some unknown_method)
unfolding set
usable-set m c start end s u =
    let p = set_sysfs-has_path m c start end s in
    let k = set_sysfs-known m c start end s in
    let (t, l) = set_tlp-known m c start end s in
    (λ e. ground (arith, p, t, u.has_path, u.known), λ e. ground (arith, k, l, u.known))

-- A controller made from a detected plan, where the paths of thinkpad_acpi that were found are not
-- empty, is never asked for a method that it does not know and never finds its paths missing.
pub detected-set :
    (m : Machine) (h : Host) (hw : Scan) (start end : ℤ) (s : m.State)
    → All IsPath h.thinkpad_paths
    → let e = (set m (new (detect_thresholds h hw)) start end s).1 in
      (e ≢ some paths_missing) × (e ≢ some unknown_method)
detected-set m h hw start end s all =
    usable-set m (new (detect_thresholds h hw)) start end s (detected-IsUsable h hw all)
