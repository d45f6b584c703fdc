-- ===== src/Config/Settings.antt =====
-- The patches of internal/config/settings.go and actions.go, how they are applied, and how the
-- server stores the result (updateSettings and handlePutConfig of internal/api/config.go).
pub mod Laws
mod Examples
use lap_guard.Base.{
  ℤ, Bool, true, false, ◌&&◌, ◌||◌, not, Option, none, some, is_some, List, [], ◌∷◌, Text, codes,
  text_eq, trim_space, Result, ok, err, ◌>>=◌, ◌>>◌, reject_if, if◌then◌else◌,
}
use lap_guard.Config.{
  Config, NotificationsConfig, ShutdownConfig, DockerConfig, SafetyConfig, AutoDrainConfig,
  ActionsConfig,
}
use lap_guard.Config.Normalize.{
  Checked, ConfigError, paths_not_over_http, normalize_notifications, normalize_shutdown,
  normalize_docker, normalize_safety, normalize_auto_drain, normalize_actions, normalize,
}

-- A nil pointer of a patch leaves the field alone.
abbrev pub or_keep {ℓ} : {A : Type ℓ} → A → Option A → A
or_keep a none = a
or_keep a (some b) = b

pub record NotificationsPatch : Type 0 where
  pub provider : Option Text
  pub enabled : Option Bool
  pub dry_run : Option Bool
  pub webhook_url : Option Text
  pub chat_id : Option Text

pub record ShutdownPatch : Type 0 where
  pub enabled : Option Bool
  pub warning_threshold : Option ℤ
  pub critical_threshold : Option ℤ

pub record DockerPatch : Type 0 where
  pub stop_enabled : Option Bool
  pub timeout_seconds : Option ℤ

pub record SafetyPatch : Type 0 where
  pub dry_run : Option Bool
  pub require_ac_loss : Option Bool
  pub minimum_battery_percent : Option ℤ
  pub cooldown_seconds : Option ℤ

-- `notification_services` is a slice, nil when the request leaves it out.
pub record AutoDrainPatch : Type 0 where
  pub enabled : Option Bool
  pub battery_threshold_percent : Option ℤ
  pub pre_notification_minutes : Option ℤ
  pub response_timeout_minutes : Option ℤ
  pub notification_services : Option (List Text)
  pub on_user_no : Option Text

pub record ActionsPatch : Type 0 where
  pub real_enabled : Option Bool
  pub require_confirmation : Option Bool
  pub cooldown_seconds : Option ℤ
  pub poweroff_path : Option Text
  pub docker_path : Option Text
  pub sync_path : Option Text
  pub poweroff_timeout_secs : Option ℤ

abbrev pub redacted_secret : Text
redacted_secret = codes "[redacted]"

-- A secret is replaced only by a text that is neither blank nor the redaction mark.
pub patch_secret : Text → Option Text → Text
patch_secret old none = old
patch_secret old (some raw) =
    let v = trim_space raw in if text_eq v [] || text_eq v redacted_secret then old else v

pub apply_notifications :
    (Text → Bool) → NotificationsConfig → NotificationsPatch → Checked NotificationsConfig
unfolding patch_secret
apply_notifications valid_url n p = normalize_notifications valid_url (record {
  provider = or_keep n.provider p.provider;
  enabled = or_keep n.enabled p.enabled;
  dry_run = or_keep n.dry_run p.dry_run;
  webhook_url = patch_secret n.webhook_url p.webhook_url;
  chat_id = patch_secret n.chat_id p.chat_id;
})

pub apply_shutdown : ShutdownConfig → ShutdownPatch → Checked ShutdownConfig
apply_shutdown s p = normalize_shutdown (record {
  enabled = or_keep s.enabled p.enabled;
  warning_threshold = or_keep s.warning_threshold p.warning_threshold;
  critical_threshold = or_keep s.critical_threshold p.critical_threshold;
})

pub apply_docker : DockerConfig → DockerPatch → Checked DockerConfig
apply_docker d p = normalize_docker (record {
  stop_enabled = or_keep d.stop_enabled p.stop_enabled;
  timeout_seconds = or_keep d.timeout_seconds p.timeout_seconds;
})

pub apply_safety : SafetyConfig → SafetyPatch → Checked SafetyConfig
apply_safety s p = normalize_safety (record {
  dry_run = or_keep s.dry_run p.dry_run;
  require_ac_loss = or_keep s.require_ac_loss p.require_ac_loss;
  minimum_battery_percent = or_keep s.minimum_battery_percent p.minimum_battery_percent;
  cooldown_seconds = or_keep s.cooldown_seconds p.cooldown_seconds;
})

pub apply_auto_drain : AutoDrainConfig → AutoDrainPatch → Checked AutoDrainConfig
apply_auto_drain a p = normalize_auto_drain (record {
  enabled = or_keep a.enabled p.enabled;
  battery_threshold_percent = or_keep a.battery_threshold_percent p.battery_threshold_percent;
  pre_notification_minutes = or_keep a.pre_notification_minutes p.pre_notification_minutes;
  response_timeout_minutes = or_keep a.response_timeout_minutes p.response_timeout_minutes;
  notification_services = or_keep a.notification_services p.notification_services;
  on_user_no = or_keep a.on_user_no p.on_user_no;
})

-- The request sets a path of an executable.
abbrev has_path : ActionsPatch → Bool
has_path p = is_some p.poweroff_path || is_some p.docker_path || is_some p.sync_path

abbrev patched_actions : ActionsConfig → ActionsPatch → ActionsConfig
patched_actions a p = record a {
  real_enabled = or_keep a.real_enabled p.real_enabled;
  require_confirmation = or_keep a.require_confirmation p.require_confirmation;
  cooldown_seconds = or_keep a.cooldown_seconds p.cooldown_seconds;
  poweroff_timeout_secs = or_keep a.poweroff_timeout_secs p.poweroff_timeout_secs;
}

pub apply_actions : ActionsConfig → ActionsPatch → Checked ActionsConfig
apply_actions a p = do
  reject_if (has_path p) paths_not_over_http
  normalize_actions (patched_actions a p)

-- The body of PUT /api/v1/config; `execution` and `notes` are read and ignored.
pub record SettingsRequest : Type 0 where
  pub notifications : Option NotificationsPatch
  pub shutdown : Option ShutdownPatch
  pub docker : Option DockerPatch
  pub safety : Option SafetyPatch
  pub actions : Option ActionsPatch
  pub auto_drain : Option AutoDrainPatch

abbrev pub apply_if {ℓ κ} :
    {A : Type ℓ} {P : Type κ} → (A → P → Result ConfigError A) → A → Option P → Result ConfigError A
apply_if apply a none = ok a
apply_if apply a (some p) = apply a p

-- The function that handlePutConfig hands to updateSettings.
pub apply_request : (Text → Bool) → SettingsRequest → Config → Checked Config
apply_request valid_url req c = do
  notifications ← apply_if (apply_notifications valid_url) c.notifications req.notifications
  shutdown ← apply_if apply_shutdown c.shutdown req.shutdown
  docker ← apply_if apply_docker c.docker req.docker
  safety ← apply_if apply_safety c.safety req.safety
  actions ← apply_if apply_actions c.actions req.actions
  auto_drain ← apply_if apply_auto_drain c.auto_drain req.auto_drain
  ok (record c {
    notifications = notifications;
    shutdown = shutdown;
    docker = docker;
    safety = safety;
    actions = actions;
    auto_drain = auto_drain;
  })

-- Where `updateSettings` stops: the settings, or the disk.
pub data UpdateError : Type 0 where
  invalid : ConfigError → UpdateError
  no_default_path save_failed : UpdateError

-- The environment of `updateSettings`: the user's configuration path and whether a write succeeds.
pub record Disk : Type 0 where
  pub default_path : Option Text
  pub save_ok : Text → Bool

abbrev pub Stored : Type 0
Stored = Config × Result UpdateError Config

choose_path : Disk → Config → Result UpdateError (Text × Config)
choose_path disk next =
    let path = trim_space next.config_path in
    if text_eq path []
    then elim disk.default_path [
      | none ↦ err no_default_path
      | some def ↦ ok (def, record next { config_path = def })
    ]
    else ok (path, next)

save : Disk → Config → Result UpdateError Config
unfolding choose_path
save disk next = do
  (path, named) ← choose_path disk next
  reject_if (not (disk.save_ok path)) save_failed
  ok named

abbrev lift {ℓ} : {A : Type ℓ} → Result ConfigError A → Result UpdateError A
lift (ok a) = ok a
lift (err e) = err (invalid e)

abbrev keep_on_error : Config → Result UpdateError Config → Stored
keep_on_error old (ok next) = (next, ok next)
keep_on_error old (err e) = (old, err e)

-- The steps of `updateSettings` before the server's copy is replaced.
attempt : (Text → Bool) → Disk → (Config → Checked Config) → Config → Result UpdateError Config
unfolding save
attempt valid_url disk mutate old = do
  next ← lift (mutate old)
  clean ← lift (normalize valid_url next)
  save disk clean

-- `updateSettings`: the server's configuration after the call, and what the call returns.
pub update_settings : (Text → Bool) → Disk → (Config → Checked Config) → Config → Stored
update_settings valid_url disk mutate old = keep_on_error old (attempt valid_url disk mutate old)

pub put_config : (Text → Bool) → Disk → SettingsRequest → Config → Stored
put_config valid_url disk req = update_settings valid_url disk (apply_request valid_url req)
