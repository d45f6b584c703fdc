-- ===== src/Battery/Sysfs/Examples.antt =====
-- A directory with one battery that discharges, which has charges in place of energies.
use lap_guard.Base.{
  trim_space, to_lower, to_upper, has_prefix, ◌≡◌, refl, true, false, ◌&&◌, not, some, [], ◌∷◌,
  Text, codes, text_eq, mem_text, pos, ok, if◌then◌else◌,
}
use lap_guard.Battery.Compute.Examples.{integers}
use lap_guard.Battery.Reading.{is_covered}
use lap_guard.Battery.Sysfs.{
  found_batteries, chosen, among, Files, Reading, absent, denied, bytes, directory,
  resolve_battery_dir, read_present, list_attr_names, is_battery_dir,
}
use lap_guard.Battery.Sysfs.Provider.{snapshot, tracked_fields}
use lap_guard.Battery.Sysfs.Missing.{has_no_file, keep, marked_absent, snapshot-missing_fields}

abbrev file : Text → Reading
unfolding text_eq
file f =
    if text_eq f (codes "type")
    then bytes (codes "Battery")
    else if text_eq f (codes "status")
    then bytes (codes "Discharging")
    else if text_eq f (codes "charge_now")
    then bytes (codes "4000")
    else if text_eq f (codes "power_now")
    then denied
    else absent

abbrev laptop : Files
laptop = record {
  root = directory;
  entries = some (codes "AC" ∷ codes "BAT0" ∷ []);
  stat = λ d. directory;
  listed = λ d. some ((codes "charge_now", false) ∷ (codes "power", true) ∷ []);
  read = λ d f. if text_eq d (codes "BAT0") then file f else absent;
  parse_int = λ t. some (pos 4000);
}

found : resolve_battery_dir laptop [] ≡ ok (codes "BAT0")
unfolding resolve_battery_dir text_eq among chosen found_batteries is_battery_dir has_prefix
    to_upper to_lower trim_space mem_text
found = refl

here : marked_absent (read_present laptop (codes "BAT0")) ≡ false
unfolding read_present text_eq
here = refl

snapshot-missing_fields_example :
    (snapshot integers laptop [] 5).missing_fields
    ≡ keep
        (λ f.
          has_no_file laptop (codes "BAT0") f
          && not (is_covered (list_attr_names laptop (codes "BAT0")) f))
        tracked_fields
snapshot-missing_fields_example =
    snapshot-missing_fields integers laptop [] 5 (codes "BAT0") found here
