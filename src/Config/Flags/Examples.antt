-- ===== src/Config/Flags/Examples.antt =====
-- Starts at concrete command lines.
use lap_guard.Base.{
  text_eq, text_eq, text_eq, text_eq, text_eq, text_eq, ◌≡◌, refl, Bool, true, false, none, some,
  codes, Text, text_eq, ok,
}
use lap_guard.Config.{Config, defaults}
use lap_guard.Config.Normalize.Idempotence.{defaults_accepted}
use lap_guard.Config.Write.{Files}
use lap_guard.Config.Persist.{with_newline, dto_of, load_file}
use lap_guard.Config.Persist.Laws.{load_stored}
use lap_guard.Config.Persist.Coders.{listed, listed-IsLawful}
use lap_guard.Config.Flags.{
  Flag, parse_flags, apply_persistent_config, file_path, with_file, merged, overlay_flags, from_cli,
  CommandLine, load, config,
}
use lap_guard.Config.Flags.Laws.{moved-IsNormal, IsNormal, load-IsNormal}

abbrev config_file : Text
config_file = codes "/etc/config.json"

-- `-config /etc/config.json`.
abbrev named_flags : Flag → Bool
named_flags config = true
named_flags f = false

abbrev named : Config
named = record defaults { config_path = config_file }

abbrev start_line : CommandLine
start_line = record {
  parse = λ c.
      some (record { settings = record c { config_path = config_file }; flag_set = named_flags });
  splits = λ s. true;
}

-- The file holds the defaults.
abbrev on_disk : Files
on_disk q = some (with_newline (listed.encode (dto_of defaults)))

from_disk : load_file listed (λ _. true) config_file on_disk ≡ ok named
from_disk =
    load_stored listed (λ _. true) config_file on_disk defaults defaults listed-IsLawful
      defaults_accepted refl

started :
    load (λ _. true) start_line none (λ path. load_file listed (λ _. true) path on_disk)
    ≡ ok (record {
      settings = named;
      source = from_cli;
      flag_set = named_flags;
      write_if_missing = false;
    })
unfolding load parse_flags apply_persistent_config file_path with_file merged overlay_flags text_eq
started = rw (moved-IsNormal (λ _. true) defaults config_file defaults_accepted, from_disk) refl

load-IsNormal_example : IsNormal (λ _. true) named
load-IsNormal_example = load-IsNormal listed (λ _. true) start_line none on_disk started
