-- ===== src/Config/Persist.antt =====
-- Storing the settings in a file and reading them back: Save, LoadFile and persistDTO of
-- internal/config/config.go. The JSON coder is a parameter.
pub mod Laws
pub mod Coders
mod Examples
use lap_guard.Base.{
  ℕ, Bool, true, false, Option, none, some, List, [], ◌∷◌, ◌++◌, Text, text_eq, Result, ok, err,
  if◌then◌else◌,
}
use lap_guard.Config.{
  Config, NotificationsConfig, ShutdownConfig, DockerConfig, SafetyConfig, AutoDrainConfig,
  ActionsConfig, AuthConfig, defaults,
}
use lap_guard.Config.Normalize.{ConfigError, normalize}
use lap_guard.Config.Write.{Files, WriteEnv, Written, atomic_write_file}

-- The fields that the file holds.
pub record PersistDto : Type 0 where
  pub listen : Text
  pub provider : Text
  pub sysfs_root : Text
  pub battery_name : Text
  pub web_dir : Text
  pub log_json : Bool
  pub threshold_method : Text
  pub notifications : NotificationsConfig
  pub shutdown : ShutdownConfig
  pub docker : DockerConfig
  pub safety : SafetyConfig
  pub auto_drain : AutoDrainConfig
  pub auth : AuthConfig
  pub actions : ActionsConfig
  pub events_db : Text

-- `MarshalIndent` of the fields, and `Unmarshal` over settings that are there already.
pub record Codec : Type 0 where
  pub encode : PersistDto → Text
  pub decode : Text → Config → Option Config

abbrev pub dto_of : Config → PersistDto
dto_of c = record {
  listen = c.listen;
  provider = c.provider;
  sysfs_root = c.sysfs_root;
  battery_name = c.battery_name;
  web_dir = c.web_dir;
  log_json = c.log_json;
  threshold_method = c.threshold_method;
  notifications = c.notifications;
  shutdown = c.shutdown;
  docker = c.docker;
  safety = c.safety;
  auto_drain = c.auto_drain;
  auth = c.auth;
  actions = c.actions;
  events_db = c.events_db;
}

abbrev pub newline : ℕ
newline = 10

abbrev pub with_newline : Text → Text
with_newline raw = raw ++ newline ∷ []

-- `Save`; `none` is the error of an empty path, under which nothing is written.
unfoldable pub save_file : Codec → WriteEnv → Text → Config → Files → Option Written
save_file codec e path c files =
    if text_eq path []
    then none
    else some (atomic_write_file e path (with_newline (codec.encode (dto_of c))) files)

pub data LoadError : Type 0 where
  not_exist malformed : LoadError
  refused : ConfigError → LoadError

abbrev pub located : Text → Result ConfigError Config → Result LoadError Config
located path (ok c) = ok (record c { config_path = path })
located path (err e) = err (refused e)

abbrev pub decoded : (Text → Bool) → Text → Option Config → Result LoadError Config
decoded valid_url path none = err malformed
decoded valid_url path (some c) = located path (normalize valid_url c)

abbrev pub opened : Codec → (Text → Bool) → Text → Option Text → Result LoadError Config
opened codec valid_url path none = err not_exist
opened codec valid_url path (some raw) = decoded valid_url path (codec.decode raw defaults)

-- `LoadFile`, where a file that is there can be read.
unfoldable pub load_file : Codec → (Text → Bool) → Text → Files → Result LoadError Config
load_file codec valid_url path files = opened codec valid_url path (files path)
