-- ===== src/Config/Write/Examples.antt =====
-- A write at concrete answers of the operating system.
use lap_guard.Base.{refl, true, false, none, [], codes, Text, text_eq}
use lap_guard.Config.Write.{Files, WriteEnv, atomic_write_file}
use lap_guard.Config.Write.Laws.{IsAtomic, atomic_write_file-IsAtomic}

abbrev config_file : Text
config_file = codes "/etc/config.json"

-- The change of mode after the rename fails: the caller gets an error, and the file is the new one.
abbrev late_error : WriteEnv
late_error = record {
  temp = codes "/etc/.config.json.1.tmp";
  made_dir = true;
  created = true;
  mode_set = true;
  wrote = true;
  synced = true;
  closed = true;
  renamed = true;
  mode_kept = false;
  removed = true;
  partial_write = λ raw. [];
}

abbrev no_files : Files
no_files q = none

atomic_write_file-IsAtomic_example :
    IsAtomic config_file
      (codes "{}")
      late_error.temp
      true
      no_files
      (atomic_write_file late_error config_file (codes "{}") no_files)
unfolding text_eq
atomic_write_file-IsAtomic_example =
    atomic_write_file-IsAtomic late_error config_file (codes "{}") no_files refl refl
