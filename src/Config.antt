-- ===== src/Config.antt =====
-- The settings records of internal/config (settings.go, actions.go, auth.go, config.go) and the
-- questions that the other packages ask of them. A Go `int` is an integer; a `time.Duration` is an
-- integer of nanoseconds.
pub mod Settings
pub mod Normalize
pub mod Write
pub mod Persist
pub mod Flags
pub mod Views
pub mod Auth
use lap_guard.Base.{
  ℤ, pos, Bool, true, false, ◌&&◌, ◌||◌, not, List, [], ◌∷◌, ◌++◌, Text, codes, text_eq, trim_space,
  to_lower, if◌then◌else◌,
}

pub record NotificationsConfig : Type 0 where
  pub provider : Text
  pub enabled : Bool
  pub dry_run : Bool
  pub webhook_url : Text
  pub chat_id : Text

pub record ShutdownConfig : Type 0 where
  pub enabled : Bool
  pub warning_threshold : ℤ
  pub critical_threshold : ℤ

pub record DockerConfig : Type 0 where
  pub stop_enabled : Bool
  pub timeout_seconds : ℤ

pub record SafetyConfig : Type 0 where
  pub dry_run : Bool
  pub require_ac_loss : Bool
  pub minimum_battery_percent : ℤ
  pub cooldown_seconds : ℤ

pub record AutoDrainConfig : Type 0 where
  pub enabled : Bool
  pub battery_threshold_percent : ℤ
  pub pre_notification_minutes : ℤ
  pub response_timeout_minutes : ℤ
  pub notification_services : List Text
  pub on_user_no : Text

pub record ActionsConfig : Type 0 where
  pub real_enabled : Bool
  pub require_confirmation : Bool
  pub cooldown_seconds : ℤ
  pub poweroff_path : Text
  pub docker_path : Text
  pub sync_path : Text
  pub poweroff_timeout_secs : ℤ

pub record AuthConfig : Type 0 where
  pub enabled : Bool
  pub allow_loopback_no_token : Bool
  pub token_hash : Text
  pub created_at : Text
  pub last_rotated_at : Text

-- The fields `setFlags` and `writeIfMissing` belong to the command line and are left out.
pub record Config : Type 0 where
  pub listen : Text
  pub provider : Text
  pub sysfs_root : Text
  pub battery_name : Text
  pub web_dir : Text
  pub log_json : Bool
  pub threshold_method : Text
  pub notifications : NotificationsConfig
  pub shutdown : ShutdownConfig
  pub docker : DockerConfig
  pub safety : SafetyConfig
  pub auto_drain : AutoDrainConfig
  pub auth : AuthConfig
  pub actions : ActionsConfig
  pub events_db : Text
  pub power_poll : ℤ
  pub power_debounce : ℤ
  pub config_path : Text

abbrev pub provider_none : Text
provider_none = codes "none"

abbrev pub provider_ntfy : Text
provider_ntfy = codes "ntfy"

abbrev pub provider_telegram : Text
provider_telegram = codes "telegram"

abbrev pub provider_discord : Text
provider_discord = codes "discord"

abbrev pub provider_webhook : Text
provider_webhook = codes "webhook"

abbrev pub on_user_no_continue : Text
on_user_no_continue = codes "continue_on_battery"

abbrev pub default_notifications : NotificationsConfig
default_notifications = record {
  provider = provider_none;
  enabled = false;
  dry_run = false;
  webhook_url = [];
  chat_id = [];
}

abbrev pub default_shutdown : ShutdownConfig
default_shutdown = record {
  enabled = false;
  warning_threshold = pos 20;
  critical_threshold = pos 10;
}

abbrev pub default_docker : DockerConfig
default_docker = record { stop_enabled = false; timeout_seconds = pos 30 }

abbrev pub default_safety : SafetyConfig
default_safety = record {
  dry_run = true;
  require_ac_loss = true;
  minimum_battery_percent = pos 0;
  cooldown_seconds = pos 60;
}

abbrev pub default_auto_drain : AutoDrainConfig
default_auto_drain = record {
  enabled = false;
  battery_threshold_percent = pos 10;
  pre_notification_minutes = pos 30;
  response_timeout_minutes = pos 10;
  notification_services = provider_ntfy ∷ [];
  on_user_no = on_user_no_continue;
}

abbrev pub default_actions : ActionsConfig
default_actions = record {
  real_enabled = false;
  require_confirmation = true;
  cooldown_seconds = pos 60;
  poweroff_path = [];
  docker_path = [];
  sync_path = [];
  poweroff_timeout_secs = pos 30;
}

abbrev pub default_auth : AuthConfig
default_auth = record {
  enabled = true;
  allow_loopback_no_token = true;
  token_hash = [];
  created_at = [];
  last_rotated_at = [];
}

-- `defaults`: what a configuration file is read over.
abbrev pub defaults : Config
defaults = record {
  listen = codes "127.0.0.1:8585";
  provider = codes "auto";
  sysfs_root = codes "/sys/class/power_supply";
  battery_name = [];
  web_dir = codes "web/dist";
  log_json = false;
  threshold_method = codes "auto";
  notifications = default_notifications;
  shutdown = default_shutdown;
  docker = default_docker;
  safety = default_safety;
  auto_drain = default_auto_drain;
  auth = default_auth;
  actions = default_actions;
  events_db = [];
  power_poll = pos 5_000_000_000;
  power_debounce = pos 10_000_000_000;
  config_path = [];
}

-- The steps of a plan.
pub data Action : Type 0 where
  stop_docker sync power_off : Action

-- What stands between a configuration and real actions.
pub data Gate : Type 0 where
  real_actions_disabled safety_dry_run confirmation_required : Gate

unfoldable pub manual_actions_ready : Config → Bool
manual_actions_ready c = c.actions.real_enabled && not c.safety.dry_run

unfoldable pub intended_plan : Config → List Action
intended_plan c =
    (if c.docker.stop_enabled then stop_docker ∷ [] else []) ++ (sync ∷ power_off ∷ [])

unfoldable pub action_gates : Config → List Gate
action_gates c =
    (if c.actions.real_enabled then [] else real_actions_disabled ∷ [])
    ++ ((if c.safety.dry_run then safety_dry_run ∷ [] else [])
        ++ (if c.actions.require_confirmation then [] else confirmation_required ∷ []))

pub data ExecutionState : Type 0 where
  unconfigured disabled dry_run ready : ExecutionState

unfoldable pub host_execution_state : Config → ExecutionState
host_execution_state c =
    if not c.actions.real_enabled
    then ExecutionState.disabled
    else if c.safety.dry_run
    then ExecutionState.dry_run
    else ready

unfoldable pub is_plain_provider : Text → Bool
is_plain_provider p =
    if text_eq p provider_ntfy
    then true
    else if text_eq p provider_discord
    then true
    else text_eq p provider_webhook

-- `valid_url` stands for `validateHTTPURL`, which asks Go's URL parser.
unfoldable pub provider_configured : (Text → Bool) → NotificationsConfig → Bool
unfolding is_plain_provider
provider_configured valid_url n =
    let url = trim_space n.webhook_url in
    let p = to_lower (trim_space n.provider) in
    if text_eq url []
    then false
    else if not (valid_url url)
    then false
    else if is_plain_provider p
    then true
    else if text_eq p provider_telegram
    then not (text_eq (trim_space n.chat_id) [])
    else false

unfoldable pub notifications_execution_state : (Text → Bool) → NotificationsConfig → ExecutionState
notifications_execution_state valid_url n =
    if not (provider_configured valid_url n)
    then unconfigured
    else if not n.enabled
    then ExecutionState.disabled
    else if n.dry_run
    then ExecutionState.dry_run
    else ready

names : Text → List Text → Bool
names p [] = false
names p (name ∷ rest) = text_eq name p || names p rest

unfoldable pub allows_provider : AutoDrainConfig → Text → Bool
unfolding names
allows_provider a provider = names (to_lower (trim_space provider)) a.notification_services
