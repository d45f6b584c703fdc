-- ===== src/Battery/Sysfs.antt =====
-- `SysfsProvider` of internal/battery/sysfs_provider.go: which battery is read, and its snapshot.
pub mod Provider
pub mod Probing
mod Missing
mod Choice
mod Agreement
mod Examples
use lap_guard.Base.{
  ℕ, ℤ, Bool, true, false, ◌||◌, ◌&&◌, not, Option, none, some, List, [], ◌∷◌, ◌++◌, Text, codes,
  text_eq, mem_text, trim_space, to_lower, to_upper, has_prefix, is_some, Result, ok, err,
  if◌then◌else◌,
}
use lap_guard.Battery.Compute.{
  Float, Number, Naming, PowerMethod, unknown, power_unavailable, naming_none, no_method,
  naming_convention, power_calculation_method,
}
use lap_guard.Battery.Reading.{
  Battery, Snapshot, Probe, Warning, enrich, no_root, root_failed, root_not_directory,
  root_unreadable, battery_not_found, battery_failed, battery_not_directory, no_battery_under_root,
  present_zero, present_denied, present_failed, present_unexpected, permission_denied, read_failed,
  file_empty, not_an_integer,
}

-- What reading a file gives.
pub data Reading : Type 0 where
  absent denied failed : Reading
  bytes : Text → Reading

pub data Stat : Type 0 where
  stat_absent stat_failed not_directory directory : Stat

-- The files under the root: a battery is named by its directory. `entries` lists the root, `listed` a
-- battery's directory, with a mark on what is itself a directory; both are `none` where that fails.
-- `parse_int` is `strconv.ParseInt`.
pub record Files : Type 0 where
  pub root : Stat
  pub entries : Option (List Text)
  pub stat : Text → Stat
  pub listed : Text → Option (List (Text × Bool))
  pub read : Text → Text → Reading
  pub parse_int : Text → Option ℤ

-- A value, whether its file is missing, and a warning.
pub record Field (A : Type 0) : Type 0 where
  pub value : A
  pub is_missing : Bool
  pub warning : Option Warning

-- `classifyReadError` is in the two constructors of a warning.
abbrev string_of : Text → Reading → Field Text
string_of f absent = record { value = []; is_missing = true; warning = none }
string_of f denied = record { value = []; is_missing = false; warning = some (permission_denied f) }
string_of f failed = record { value = []; is_missing = false; warning = some (read_failed f) }
string_of f (bytes raw) = record { value = trim_space raw; is_missing = false; warning = none }

unfoldable pub read_string_field : Files → Text → Text → Field Text
read_string_field fs dir f = string_of f (fs.read dir f)

abbrev pub parsed : Text → Text → Option ℤ → Field (Option ℤ)
parsed f text (some n) = record { value = some n; is_missing = false; warning = none }
parsed f text none = record {
  value = none;
  is_missing = false;
  warning = some (not_an_integer f text);
}

abbrev pub int_of : Files → Text → Reading → Field (Option ℤ)
int_of fs f absent = record { value = none; is_missing = true; warning = none }
int_of fs f denied = record {
  value = none;
  is_missing = false;
  warning = some (permission_denied f);
}
int_of fs f failed = record { value = none; is_missing = false; warning = some (read_failed f) }
int_of fs f (bytes raw) =
    let text = trim_space raw in
    if text_eq text []
    then record { value = none; is_missing = false; warning = some (file_empty f) }
    else parsed f text (fs.parse_int text)

-- The value is `none` where the source returns zero with a missing file or a warning.
unfoldable pub read_int_field : Files → Text → Text → Field (Option ℤ)
read_int_field fs dir f = int_of fs f (fs.read dir f)

abbrev pub or_second : Option ℤ → Option ℤ → Option ℤ
or_second (some n) b = some n
or_second none b = b

-- `readThreshold` with two names.
unfoldable pub read_threshold : Files → Text → Text → Text → Option ℤ
unfolding read_int_field
read_threshold fs dir f g =
    or_second (read_int_field fs dir f).value (read_int_field fs dir g).value

abbrev pub skip_attr_names : List Text
skip_attr_names =
    codes "device" ∷ codes "power" ∷ codes "subsystem" ∷ codes "uevent" ∷ codes "hwmon" ∷ []

abbrev pub kept_names : List (Text × Bool) → List Text
kept_names [] = []
kept_names ((name, is_dir) ∷ rest) =
    let others = kept_names rest in
    if mem_text name skip_attr_names then others else if is_dir then others else name ∷ others

abbrev pub names_or_none : Option (List (Text × Bool)) → List Text
names_or_none none = []
names_or_none (some entries) = kept_names entries

unfoldable pub list_attr_names : Files → Text → List Text
list_attr_names fs dir = names_or_none (fs.listed dir)

-- `readPresent`: whether it is present, whether that is known, and a warning.
abbrev pub present_text : Text → Bool × Bool × Option Warning
present_text v =
    if text_eq v (codes "1")
    then (true, true, none)
    else if text_eq v (codes "0")
    then (false, true, none)
    else (false, false, some (present_unexpected v))

abbrev pub present_of : Reading → Bool × Bool × Option Warning
present_of absent = (true, true, none)
present_of denied = (false, false, some present_denied)
present_of failed = (false, false, some present_failed)
present_of (bytes raw) = present_text (trim_space raw)

unfoldable pub read_present : Files → Text → Bool × Bool × Option Warning
read_present fs dir = present_of (fs.read dir (codes "present"))

unfoldable pub is_battery_dir : Files → Text → Bool
unfolding read_string_field
is_battery_dir fs name =
    let typ = read_string_field fs name (codes "type") in
    if typ.is_missing
    then has_prefix (to_upper name) (codes "BAT")
    else text_eq (to_lower typ.value) (codes "battery")

unfoldable pub found_batteries : Files → List Text → List Text
found_batteries fs [] = []
found_batteries fs (name ∷ rest) =
    let others = found_batteries fs rest in if is_battery_dir fs name then name ∷ others else others

abbrev bat0 : Text
bat0 = codes "BAT0"

-- BAT0 is preferred when several packs exist.
unfoldable pub chosen : List Text → Option Text
chosen [] = none
chosen (first ∷ rest) = some (if mem_text bat0 (first ∷ rest) then bat0 else first)

abbrev pub or_no_battery : Option Text → Result Warning Text
or_no_battery none = err no_battery_under_root
or_no_battery (some name) = ok name

unfoldable pub among : Files → Option (List Text) → Result Warning Text
among fs none = err root_unreadable
among fs (some names) = or_no_battery (chosen (found_batteries fs names))

abbrev pub named : Text → Stat → Result Warning Text
named name directory = ok name
named name stat_absent = err battery_not_found
named name stat_failed = err battery_failed
named name not_directory = err battery_not_directory

abbrev pub under : Files → Text → Stat → Result Warning Text
under fs name stat_absent = err no_root
under fs name stat_failed = err root_failed
under fs name not_directory = err root_not_directory
under fs name directory = if text_eq name [] then among fs fs.entries else named name (fs.stat name)

-- `resolveBatteryDir`, for the name that the provider is given (empty for any).
unfoldable pub resolve_battery_dir : Files → Text → Result Warning Text
resolve_battery_dir fs name = under fs name fs.root
