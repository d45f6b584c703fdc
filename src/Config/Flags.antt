-- ===== src/Config/Flags.antt =====
-- How the command line and the configuration file come together: parseFlags, Load,
-- ApplyPersistentConfig, overlayFlags, EventsDBPath and ResolveThresholdMethod of
-- internal/config/config.go. Go's flag package and its address parser are parameters.
pub mod Laws
pub mod Method
mod Examples
use lap_guard.Base.{
  ℤ, pos, leb_ℤ, Bool, true, false, ◌&&◌, not, Option, none, some, List, [], ◌∷◌, Text, codes,
  text_eq, trim_space, Result, ok, err, ◌>>=◌, ◌>>◌, reject_if, if◌then◌else◌,
}
use lap_guard.Config.{Config, defaults}
use lap_guard.Config.Normalize.{ConfigError, text_or_default, normalize}
use lap_guard.Config.Persist.{LoadError, not_exist}

-- The flags that overlayFlags asks about, and `-config`.
pub data Flag : Type 0 where
  listen provider sysfs_root battery web_dir log_json threshold_method events_db : Flag
  power_poll power_debounce config : Flag

-- What `parseFlags` comes to: the settings, and the flags that the command line named.
pub record Parsed : Type 0 where
  pub settings : Config
  pub flag_set : Flag → Bool

pub data StartError : Type 0 where
  bad_flag invalid_listen : StartError
  invalid_flags : ConfigError → StartError
  bad_file : LoadError → StartError

-- The command line as the flag package reads it over given settings, and `SplitHostPort`.
pub record CommandLine : Type 0 where
  pub parse : Config → Option Parsed
  pub splits : Text → Bool

abbrev with_settings : Parsed → Result ConfigError Config → Result StartError Parsed
with_settings p (ok c) = ok (record p { settings = c })
with_settings p (err e) = err (invalid_flags e)

abbrev normalized : (Text → Bool) → Parsed → Result StartError Parsed
normalized valid_url p = with_settings p (normalize valid_url p.settings)

abbrev read_flags : Option Parsed → Result StartError Parsed
read_flags none = err bad_flag
read_flags (some p) = ok p

unfoldable pub parse_flags : (Text → Bool) → CommandLine → Config → Result StartError Parsed
parse_flags valid_url line over = do
  p ← read_flags (line.parse over)
  clean ← normalized valid_url p
  reject_if (not (line.splits clean.settings.listen)) invalid_listen
  ok clean

abbrev pub overlaid {ℓ} : {A : Type ℓ} → Bool → A → A → A
overlaid on_line flag file = if on_line then flag else file

-- The intervals of the power watcher: the flag, or the flag's default where the file has none.
abbrev pub overlaid_interval : Bool → ℤ → ℤ → ℤ
overlaid_interval on_line flag file =
    if on_line then flag else if leb_ℤ file (pos 0) then flag else file

unfoldable pub overlay_flags : Config → Parsed → Config
overlay_flags file p =
    let flags = p.settings in
    record file {
      listen =
          overlaid (p.flag_set listen) flags.listen (text_or_default defaults.listen file.listen);
      provider =
          overlaid (p.flag_set provider) flags.provider
            (text_or_default defaults.provider file.provider);
      sysfs_root =
          overlaid (p.flag_set sysfs_root) flags.sysfs_root
            (text_or_default defaults.sysfs_root file.sysfs_root);
      battery_name = overlaid (p.flag_set battery) flags.battery_name file.battery_name;
      web_dir =
          overlaid (p.flag_set web_dir) flags.web_dir
            (text_or_default defaults.web_dir file.web_dir);
      log_json = overlaid (p.flag_set log_json) flags.log_json file.log_json;
      threshold_method =
          overlaid (p.flag_set threshold_method) flags.threshold_method
            (text_or_default defaults.threshold_method file.threshold_method);
      events_db = overlaid (p.flag_set events_db) flags.events_db file.events_db;
      power_poll = overlaid_interval (p.flag_set power_poll) flags.power_poll file.power_poll;
      power_debounce =
          overlaid_interval (p.flag_set power_debounce) flags.power_debounce file.power_debounce;
    }

-- `ConfigSourceDefault`, `ConfigSourceFile` and `ConfigSourceCLI`.
pub data ConfigSource : Type 0 where
  by_default from_file from_cli : ConfigSource

pub record Loaded : Type 0 where
  pub settings : Config
  pub source : ConfigSource
  pub flag_set : Flag → Bool
  pub write_if_missing : Bool

abbrev source_or_cli : Bool → ConfigSource → ConfigSource
source_or_cli explicit other = if explicit then from_cli else other

-- No file was read.
without_file : Parsed → Config → ConfigSource → Bool → Loaded
without_file p c source missing = record {
  settings = c;
  source = source;
  flag_set = p.flag_set;
  write_if_missing = missing;
}

unfoldable pub merged : Parsed → Text → Config → Config
merged p path file = record (overlay_flags file p) { config_path = path }

-- What comes of reading the file at `path`; `c` are the settings of the command line.
unfoldable pub with_file :
    Parsed → Config → Text → Result LoadError Config → Result StartError Loaded
unfolding without_file merged
with_file p c path (ok file) = ok (record {
  settings = merged p path file;
  source = source_or_cli (p.flag_set config) from_file;
  flag_set = p.flag_set;
  write_if_missing = false;
})
with_file p c path (err not_exist) =
    ok (without_file p c (source_or_cli (p.flag_set config) by_default) true)
with_file p c path (err e) = err (bad_file e)

-- The path of the file: the flag's, or the default where `-config` was not given.
unfoldable pub file_path : Option Text → Parsed → Text
file_path default_path p =
    if text_eq p.settings.config_path [] && not (p.flag_set config)
    then elim default_path [ none ↦ [] | some def ↦ def ]
    else p.settings.config_path

-- `ApplyPersistentConfig`; `read` is LoadFile.
unfoldable pub apply_persistent_config :
    Option Text → (Text → Result LoadError Config) → Parsed → Result StartError Loaded
unfolding file_path with_file without_file
apply_persistent_config default_path read p =
    let path = file_path default_path p in
    if text_eq path []
    then ok (without_file p p.settings by_default false)
    else with_file p (record p.settings { config_path = path }) path (read path)

unfoldable pub load :
    (Text → Bool)
    → CommandLine
    → Option Text
    → (Text → Result LoadError Config)
    → Result StartError Loaded
unfolding parse_flags apply_persistent_config
load valid_url line default_path read = do
  p ← parse_flags valid_url line defaults
  apply_persistent_config default_path read p

unfoldable pub should_write : Loaded → Bool
should_write l = l.write_if_missing && not (text_eq l.settings.config_path [])

-- `EventsDBPath`; `beside` joins a name to the folder of a path.
unfoldable pub events_db_path : (Text → Text → Text) → Option Text → Config → Text
events_db_path beside default_path c =
    if not (text_eq (trim_space c.events_db) [])
    then c.events_db
    else if not (text_eq c.config_path [])
    then beside c.config_path (codes "events.db")
    else elim default_path [ none ↦ [] | some def ↦ def ]
