-- ===== src/Config/Views.antt =====
-- What the API and the log tell of the settings: Public and APIView of internal/config/settings.go,
-- View of actions.go, Warning of auth.go, and source.go.
pub mod Laws
pub mod Redact
mod Examples
use lap_guard.Base.{
  ℕ, ℤ, Bool, true, false, ◌||◌, not, Option, none, some, List, [], ◌∷◌, ◌++◌, Text, codes, text_eq,
  trim_space, has_prefix, if◌then◌else◌,
}
use lap_guard.Config.{
  Config, NotificationsConfig, ShutdownConfig, DockerConfig, SafetyConfig, AutoDrainConfig,
  ActionsConfig, AuthConfig, Action, Gate, ExecutionState, intended_plan, action_gates,
  manual_actions_ready, host_execution_state, notifications_execution_state,
}
use lap_guard.Config.Normalize.{base}
use lap_guard.Config.Auth.{AuthView, view}
use lap_guard.Config.Flags.{ConfigSource, Loaded}

pub record NotificationsView : Type 0 where
  pub provider : Text
  pub enabled : Bool
  pub dry_run : Bool
  pub webhook_url : Text
  pub chat_id : Text
  pub webhook_configured : Bool
  pub chat_id_configured : Bool

abbrev pub is_blank : Text → Bool
is_blank s = text_eq (trim_space s) []

-- `Public`.
unfoldable pub public_view : NotificationsConfig → NotificationsView
public_view n = record {
  provider = n.provider;
  enabled = n.enabled;
  dry_run = n.dry_run;
  webhook_url = [];
  chat_id = [];
  webhook_configured = not (is_blank n.webhook_url);
  chat_id_configured = not (is_blank n.chat_id);
}

pub record ActionsView : Type 0 where
  pub real_enabled : Bool
  pub require_confirmation : Bool
  pub cooldown_seconds : ℤ
  pub poweroff_timeout_secs : ℤ
  pub intended_plan : List Action
  pub gates : List Gate
  pub ready : Bool

unfoldable pub actions_view : ActionsConfig → List Action → List Gate → Bool → ActionsView
actions_view a plan gates ready = record {
  real_enabled = a.real_enabled;
  require_confirmation = a.require_confirmation;
  cooldown_seconds = a.cooldown_seconds;
  poweroff_timeout_secs = a.poweroff_timeout_secs;
  intended_plan = plan;
  gates = gates;
  ready = ready;
}

pub record ExecutionStatus : Type 0 where
  pub notifications : ExecutionState
  pub shutdown : ExecutionState
  pub docker : ExecutionState

-- The notes are constants and are left out.
pub record ApiConfig : Type 0 where
  pub notifications : NotificationsView
  pub shutdown : ShutdownConfig
  pub docker : DockerConfig
  pub safety : SafetyConfig
  pub auto_drain : AutoDrainConfig
  pub auth_enabled : Bool
  pub token_configured : Bool
  pub allow_loopback_no_token : Bool
  pub token_created_at : Text
  pub last_rotated_at : Text
  pub actions : ActionsView
  pub execution : ExecutionStatus

unfoldable pub api_view : (Text → Bool) → Config → ApiConfig
unfolding public_view actions_view
api_view valid_url c =
    let auth = view c.auth in
    let host_exec = host_execution_state c in
    record {
      notifications = public_view c.notifications;
      shutdown = c.shutdown;
      docker = c.docker;
      safety = c.safety;
      auto_drain = c.auto_drain;
      auth_enabled = auth.auth_enabled;
      token_configured = auth.token_configured;
      allow_loopback_no_token = auth.allow_loopback_no_token;
      token_created_at = auth.token_created_at;
      last_rotated_at = auth.last_rotated_at;
      actions = actions_view c.actions (intended_plan c) (action_gates c) (manual_actions_ready c);
      execution = record {
        notifications = notifications_execution_state valid_url c.notifications;
        shutdown = host_exec;
        docker = host_exec;
      };
    }

-- The two sentences of `Warning`.
pub data AuthWarning : Type 0 where
  auth_disabled loopback_may_omit : AuthWarning

unfoldable pub warning : AuthConfig → Option AuthWarning
warning a =
    if not a.enabled
    then some auth_disabled
    else if a.allow_loopback_no_token
    then some loopback_may_omit
    else none

-- Go's `filepath.Clean` and `filepath.Dir`, and the home directory.
pub record Paths : Type 0 where
  pub clean_path : Text → Text
  pub dir : Text → Text
  pub home : Option Text

abbrev pub separator : Text
separator = codes "/"

-- `path[len(home):]`, for a path that begins with `home`.
after : Text → Text → Text
after s [] = s
after [] (d ∷ p) = []
after (c ∷ s) (d ∷ p) = after s p

-- What stands for a path under the home directory.
unfoldable pub in_home : Text → Text → Option Text
unfolding after
in_home home path =
    if text_eq home [] || text_eq home separator
    then none
    else if text_eq path home
    then some (codes "~")
    else if has_prefix path (home ++ separator)
    then some (codes "~" ++ after path home)
    else none

unfoldable pub elsewhere : Paths → Text → Text
elsewhere p path =
    if text_eq path (codes "/etc/lapguard/config.json") || has_prefix path (codes "/etc/lapguard/")
    then path
    else (let name = base path in
        let folder = base (p.dir path) in
        if text_eq folder (codes ".") || (text_eq folder separator || text_eq folder [])
        then codes "…/" ++ name
        else codes "…/" ++ (folder ++ (separator ++ name)))

abbrev shown : Paths → Text → Option Text → Text
shown p path (some short) = short
shown p path none = elsewhere p path

abbrev at_home : Paths → Text → Option Text → Option Text
at_home p path none = none
at_home p path (some home) = in_home (p.clean_path home) path

unfoldable pub safe_display_path : Paths → Text → Text
unfolding in_home elsewhere
safe_display_path p raw =
    let trimmed = trim_space raw in
    if text_eq trimmed []
    then []
    else (let path = p.clean_path trimmed in shown p path (at_home p path p.home))

-- `RuntimeView`, without the constants beside these two.
pub record ConfigRuntimeView : Type 0 where
  pub source : ConfigSource
  pub path : Text

unfoldable pub runtime_view : Paths → Loaded → ConfigRuntimeView
unfolding safe_display_path
runtime_view p l = record { source = l.source; path = safe_display_path p l.settings.config_path }
