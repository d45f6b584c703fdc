-- ===== src/Config/Persist/Examples.antt =====
-- Settings stored and read back.
use lap_guard.Base.{
  text_eq, text_eq, text_eq, text_eq, text_eq, text_eq, ◌≡◌, refl, true, none, [], codes, Text,
  text_eq, ok,
}
use lap_guard.Config.{defaults}
use lap_guard.Config.Normalize.Idempotence.{defaults_accepted}
use lap_guard.Config.Write.{fill_and_rename, Files, WriteEnv, atomic_write_file}
use lap_guard.Config.Persist.{save_file, load_file, with_newline, dto_of}
use lap_guard.Config.Persist.Laws.{restarted, load_file-save_file}
use lap_guard.Config.Persist.Coders.{listed, listed-IsLawful}

abbrev config_file : Text
config_file = codes "/etc/config.json"

abbrev no_errors : WriteEnv
no_errors = record {
  temp = codes "/etc/.config.json.1.tmp";
  made_dir = true;
  created = true;
  mode_set = true;
  wrote = true;
  synced = true;
  closed = true;
  renamed = true;
  mode_kept = true;
  removed = true;
  partial_write = λ raw. [];
}

abbrev no_files : Files
no_files q = none

load_file-save_file_example :
    load_file listed
      (λ url. true)
      config_file
      (atomic_write_file no_errors config_file
        (with_newline (listed.encode (dto_of defaults)))
        no_files).final
    ≡ ok (restarted config_file defaults)
unfolding save_file atomic_write_file fill_and_rename text_eq
load_file-save_file_example =
    load_file-save_file listed (λ url. true) no_errors config_file no_files defaults defaults
      listed-IsLawful refl refl defaults_accepted refl refl
