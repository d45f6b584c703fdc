-- ===== src/Discovery/Modules/Examples.antt =====
-- Texts of /proc/modules.
use lap_guard.Base.{
  ◌≡◌, refl, true, none, some, [], ◌∷◌, ◌++◌, Text, codes, text_eq, mem_text, trim_space,
}
use lap_guard.Discovery.Modules.{
  before_space, detect_modules, module_loaded, parse_proc_modules, loaded_of, swapped, lines_from,
  keys_in,
}

-- Two lines, the second with a dash where the known name has an underscore.
abbrev proc_modules : Text
proc_modules = codes "hp_wmi 16384 0" ++ 10 ∷ codes "acpi-call 16384 0"

two_loaded : (detect_modules (some proc_modules)).0 ≡ codes "hp_wmi" ∷ codes "acpi_call" ∷ []
unfolding detect_modules parse_proc_modules loaded_of swapped lines_from keys_in before_space
    mem_text text_eq trim_space
two_loaded = refl

none_readable : (detect_modules none).0 ≡ []
unfolding detect_modules parse_proc_modules loaded_of mem_text
none_readable = refl

either_spelling : module_loaded (codes "tp_smapi" ∷ []) (codes "tp-smapi") ≡ true
unfolding module_loaded swapped text_eq
either_spelling = refl
