-- ===== src/Discovery/Modules.antt =====
-- The kernel modules that the discovery knows: modules.go of internal/discovery, without the
-- sentences on what each enables. The text of /proc/modules is a parameter, `none` where it cannot
-- be read.
mod Examples
use lap_guard.Base.{
  ℕ, ◌==◌, Bool, true, false, ◌||◌, not, Option, none, some, List, [], ◌∷◌, ◌++◌, reverse, Text,
  codes, text_eq, mem_text, trim_space, if◌then◌else◌,
}

abbrev pub known_modules : List Text
known_modules =
    codes "fujitsu_laptop"
    ∷ codes "thinkpad_acpi"
    ∷ codes "dell_smbios"
    ∷ codes "dell_wmi"
    ∷ codes "asus_wmi"
    ∷ codes "asus_nb_wmi"
    ∷ codes "hp_wmi"
    ∷ codes "hp_accel"
    ∷ codes "tp_smapi"
    ∷ codes "acpi_call"
    ∷ []

-- `strings.ReplaceAll` of one character.
unfoldable pub swapped : ℕ → ℕ → Text → Text
swapped old new [] = []
swapped old new (c ∷ s) = (if c == old then new else c) ∷ swapped old new s

abbrev pub dashed : Text → Text
dashed name = swapped b'_' b'-' name

abbrev pub underscored : Text → Text
underscored name = swapped b'-' b'_' name

-- `strings.Split(raw, "\n")`; `line` is the line so far, newest first.
unfoldable pub lines_from : Text → Text → List Text
lines_from line [] = reverse line ∷ []
lines_from line (c ∷ s) =
    if c == 10 then reverse line ∷ lines_from [] s else lines_from (c ∷ line) s

-- `strings.Cut(line, " ")`: what stands before the first space.
unfoldable pub before_space : Text → Text
before_space [] = []
before_space (c ∷ s) = let rest = before_space s in if c == 32 then [] else c ∷ rest

-- The names that one line brings, as keys of the map.
abbrev pub keys_of : Text → List Text
keys_of raw =
    let name = trim_space (before_space (trim_space raw)) in
    if text_eq name [] then [] else name ∷ underscored name ∷ []

unfoldable pub keys_in : List Text → List Text
unfolding before_space
keys_in [] = []
keys_in (raw ∷ rest) = keys_of raw ++ keys_in rest

-- `parseProcModules`: the keys of the map, which are all true.
unfoldable pub parse_proc_modules : Option Text → List Text
unfolding lines_from keys_in
parse_proc_modules none = []
parse_proc_modules (some raw) = keys_in (lines_from [] raw)

abbrev pub is_loaded : List Text → Text → Bool
is_loaded present name = mem_text name present || mem_text (dashed name) present

unfoldable pub loaded_of : List Text → List Text → List Text
unfolding swapped
loaded_of present [] = []
loaded_of present (m ∷ rest) =
    let later = loaded_of present rest in if is_loaded present m then m ∷ later else later

unfoldable pub details_of : List Text → List Text → List (Text × Bool)
unfolding swapped
details_of present [] = []
details_of present (m ∷ rest) = (m, is_loaded present m) ∷ details_of present rest

-- `detectModules`: the names of the known modules that are loaded, and each known module with
-- whether it is.
unfoldable pub detect_modules : Option Text → List Text × List (Text × Bool)
unfolding parse_proc_modules loaded_of details_of
detect_modules raw =
    let present = parse_proc_modules raw in
    (loaded_of present known_modules, details_of present known_modules)

-- `moduleLoaded`
unfoldable pub module_loaded : List Text → Text → Bool
unfolding swapped
module_loaded [] name = false
module_loaded (m ∷ rest) name =
    text_eq (underscored m) (underscored name) || module_loaded rest name
