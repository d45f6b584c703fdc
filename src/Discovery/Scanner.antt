-- ===== src/Discovery/Scanner.antt =====
-- The batteries and adapters of the machine: scanner.go of internal/discovery, over a directory of
-- supplies that is a parameter.
pub mod Primary
mod Examples
use lap_guard.Base.{
  ℕ, ◌==◌, reverse, is_some, is_some, ℤ, pos, Bool, true, false, ◌&&◌, ◌||◌, not, Option, none,
  some, List, [], ◌∷◌, ◌++◌, Text, codes, text_eq, mem_text, has_prefix, to_upper, to_lower,
  if◌then◌else◌,
}
use lap_guard.Battery.Compute.{
  Naming, PowerMethod, naming_none, no_method, naming_convention, power_calculation_method,
}

-- The file system below the root: the entries of a folder with whether each is a folder, the
-- contents of a file, `filepath.Join`, and `strconv.Atoi`.
pub record Sysfs : Type 0 where
  pub root : Text
  pub read_dir : Text → Option (List (Text × Bool))
  pub read_file : Text → Option Text
  pub join : Text → Text → Text
  pub atoi : Text → Option ℤ

pub record Supply : Type 0 where
  pub name : Text
  pub path : Text
  pub type_name : Text
  pub present : Bool
  pub online : Option Bool
  pub available_fields : List Text
  pub manufacturer : Text
  pub model : Text
  pub serial : Text
  pub technology : Text

abbrev pub skip_supply_names : List Text
skip_supply_names =
    codes "device" ∷ codes "power" ∷ codes "subsystem" ∷ codes "uevent" ∷ codes "hwmon" ∷ []

-- `trimNL`: newlines, carriage returns and spaces at the end, and spaces and tabs at the start.
drop_while : (ℕ → Bool) → Text → Text
drop_while p [] = []
drop_while p (c ∷ s) = if p c then drop_while p s else c ∷ s

abbrev is_end_blank : ℕ → Bool
is_end_blank c = c == 10 || (c == 13 || c == 32)

abbrev is_start_blank : ℕ → Bool
is_start_blank c = c == 32 || c == 9

unfoldable pub trim_nl : Text → Text
unfolding drop_while
trim_nl s = drop_while is_start_blank (reverse (drop_while is_end_blank (reverse s)))

abbrev contents : Sysfs → Option Text → Text
contents fs none = []
contents fs (some raw) = trim_nl raw

unfoldable pub read_supply_string : Sysfs → Text → Text → Text
read_supply_string fs dir field = contents fs (fs.read_file (fs.join dir field))

-- The loop over the entries of a supply's folder.
field_names : List (Text × Bool) → List Text
field_names [] = []
field_names ((name, is_dir) ∷ rest) =
    let later = field_names rest in
    if mem_text name skip_supply_names then later else if is_dir then later else name ∷ later

abbrev listed : Option (List (Text × Bool)) → List Text
listed none = []
listed (some entries) = field_names entries

unfoldable pub list_supply_fields : Sysfs → Text → List Text
unfolding field_names
list_supply_fields fs dir = listed (fs.read_dir dir)

-- The type of an entry; `none` where it is passed over.
unfoldable pub type_of : Sysfs → Text → Text → Option Text
unfolding read_supply_string
type_of fs name dir =
    let typ = read_supply_string fs dir (codes "type") in
    if not (text_eq typ [])
    then some typ
    else if has_prefix (to_upper name) (codes "BAT")
    then some (codes "Battery")
    else none

abbrev online_of : Text → Option Bool
online_of raw =
    if text_eq raw (codes "1")
    then some true
    else if text_eq raw (codes "0")
    then some false
    else none

unfoldable pub supply_of : Sysfs → Text → Text → Text → Supply
unfolding list_supply_fields read_supply_string
supply_of fs name dir typ = record {
  name = name;
  path = dir;
  type_name = typ;
  present = false;
  online = none;
  available_fields = list_supply_fields fs dir;
  manufacturer = read_supply_string fs dir (codes "manufacturer");
  model = read_supply_string fs dir (codes "model_name");
  serial = read_supply_string fs dir (codes "serial_number");
  technology = read_supply_string fs dir (codes "technology");
}

pub record Supplies : Type 0 where
  pub batteries : List Supply
  pub adapters : List Supply
  pub has_readable_mains : Bool

abbrev no_supplies : Supplies
no_supplies = record { batteries = []; adapters = []; has_readable_mains = false }

-- One entry before the supplies of the later ones.
unfoldable pub add_supply : Sysfs → Supply → Supplies → Supplies
unfolding read_supply_string
add_supply fs s later =
    let kind = to_lower s.type_name in
    if text_eq kind (codes "battery")
    then (let present =
          not (text_eq (read_supply_string fs s.path (codes "present")) (codes "0")) in
        record later { batteries = record s { present = present } ∷ later.batteries })
    else if text_eq kind (codes "mains")
    then (let online = online_of (read_supply_string fs s.path (codes "online")) in
        record later {
          adapters = record s { online = online } ∷ later.adapters;
          has_readable_mains = is_some online || later.has_readable_mains;
        })
    else later

abbrev add_typed : Sysfs → Text → Text → Option Text → Supplies → Supplies
add_typed fs name dir none later = later
add_typed fs name dir (some typ) later = add_supply fs (supply_of fs name dir typ) later

unfoldable pub supplies_in : Sysfs → List (Text × Bool) → Supplies
unfolding type_of supply_of add_supply
supplies_in fs [] = no_supplies
supplies_in fs ((name, is_dir) ∷ rest) =
    let dir = fs.join fs.root name in
    add_typed fs name dir (type_of fs name dir) (supplies_in fs rest)

-- The first battery that is present and, where `only` is a name, has it.
unfoldable pub first_present : Option Text → List Supply → Option Supply
first_present only [] = none
first_present none (b ∷ rest) = if b.present then some b else first_present none rest
first_present (some name) (b ∷ rest) =
    if text_eq b.name name && b.present then some b else first_present (some name) rest

abbrev or_else : Option Supply → Option Supply → Option Supply
or_else none other = other
or_else (some b) other = some b

abbrev first : List Supply → Option Supply
first [] = none
first (b ∷ rest) = some b

unfoldable pub pick_primary_battery : List Supply → Option Supply
unfolding first_present
pick_primary_battery bats =
    or_else (first_present (some (codes "BAT0")) bats)
      (or_else (first_present none bats) (first bats))

unfoldable pub has_energy : List Text → Bool
has_energy [] = false
has_energy (f ∷ rest) = has_prefix f (codes "energy_") || has_energy rest

abbrev charge_names : List Text
charge_names = codes "charge_now" ∷ codes "charge_full" ∷ codes "charge_full_design" ∷ []

unfoldable pub has_charge : List Text → Bool
has_charge [] = false
has_charge (f ∷ rest) = mem_text f charge_names || has_charge rest

-- The file of a threshold: the first of the names that can be read, with its number or zero.
unfoldable pub find_threshold_file : Sysfs → Text → List Text → Option (Text × ℤ)
find_threshold_file fs dir [] = none
find_threshold_file fs dir (name ∷ rest) =
    let p = fs.join dir name in
    elim (fs.read_file p) [
      | none ↦ find_threshold_file fs dir rest
      | some raw ↦ some (p, elim (fs.atoi (trim_nl raw)) [ none ↦ pos 0 | some n ↦ n ])
    ]

pub record HardwareScan : Type 0 where
  pub supplies : Supplies
  pub primary : Option Supply
  pub available_fields : List Text
  pub naming_convention : Naming
  pub power_calculation : PowerMethod
  pub has_cycle_count : Bool
  pub has_power_now : Bool
  pub has_current : Bool
  pub has_voltage : Bool
  pub has_temp : Bool
  pub has_alarm : Bool
  pub charge_start : Option (Text × ℤ)
  pub charge_end : Option (Text × ℤ)

abbrev blank_scan : Supplies → HardwareScan
blank_scan supplies = record {
  supplies = supplies;
  primary = none;
  available_fields = [];
  naming_convention = naming_none;
  power_calculation = no_method;
  has_cycle_count = false;
  has_power_now = false;
  has_current = false;
  has_voltage = false;
  has_temp = false;
  has_alarm = false;
  charge_start = none;
  charge_end = none;
}

abbrev scan_of : Sysfs → Supplies → Option Supply → HardwareScan
scan_of fs supplies none = blank_scan supplies
scan_of fs supplies (some b) =
    let fields = b.available_fields in
    let has_power = mem_text (codes "power_now") fields in
    let has_current = mem_text (codes "current_now") fields in
    let has_voltage = mem_text (codes "voltage_now") fields in
    record {
      supplies = supplies;
      primary = some b;
      available_fields = fields;
      naming_convention = naming_convention (has_energy fields) (has_charge fields);
      power_calculation = power_calculation_method has_power (has_current && has_voltage);
      has_cycle_count = mem_text (codes "cycle_count") fields;
      has_power_now = has_power;
      has_current = has_current;
      has_voltage = has_voltage;
      has_temp = mem_text (codes "temp") fields;
      has_alarm = mem_text (codes "alarm") fields;
      charge_start =
          find_threshold_file fs b.path
            (codes "charge_control_start_threshold" ∷ codes "charge_start_threshold" ∷ []);
      charge_end =
          find_threshold_file fs b.path
            (codes "charge_control_end_threshold" ∷ codes "charge_stop_threshold" ∷ []);
    }

unfoldable pub scan_hardware : Sysfs → HardwareScan
unfolding supplies_in pick_primary_battery find_threshold_file has_energy has_charge
scan_hardware fs = elim (fs.read_dir fs.root) [
  | none ↦ blank_scan no_supplies
  | some entries ↦
      let supplies = supplies_in fs entries in
      scan_of fs supplies (pick_primary_battery supplies.batteries)
]
