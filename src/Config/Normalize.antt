-- ===== src/Config/Normalize.antt =====
-- The `normalize` methods of internal/config: settings.go, actions.go, auth.go and config.go.
-- `valid_url` stands for `validateHTTPURL`, which asks Go's URL parser.
pub mod Bounds
mod Services
mod Fixed
pub mod Idempotence
mod Examples
use lap_guard.Base.{
  ℕ, ◌<◌, ℤ, pos, ltb_ℤ, leb_ℤ, ◌==◌, Bool, true, false, ◌&&◌, ◌||◌, not, List, [], ◌∷◌, Text,
  codes, text_eq, len_bytes, trim_space, to_lower, contains_any, mem_text, Result, ok, err, ◌>>=◌,
  ◌>>◌, reject_if, ltb, if◌then◌else◌, reverse,
}
use lap_guard.Config.{
  Config, NotificationsConfig, ShutdownConfig, DockerConfig, SafetyConfig, AutoDrainConfig,
  ActionsConfig, AuthConfig, provider_none, provider_ntfy, provider_telegram, provider_discord,
  provider_webhook, on_user_no_continue,
}

-- What `invalidConfig` and `fmt.Errorf` report, one constructor for each message.
pub data ConfigError : Type 0 where
  percent_out_of_range : Text → ConfigError
  unknown_notification_provider webhook_url_too_long chat_id_too_long : ConfigError
  webhook_url_invalid enabled_needs_provider webhook_url_required chat_id_required : ConfigError
  critical_not_below_warning docker_timeout_range safety_cooldown_range : ConfigError
  pre_notification_range response_timeout_range on_user_no_unsupported : ConfigError
  actions_cooldown_range poweroff_timeout_range paths_not_over_http : ConfigError
  path_not_absolute path_unsafe path_wrong_base : Text → ConfigError
  unknown_provider unknown_threshold_method : ConfigError

abbrev pub Checked : Type 0 → Type 0
Checked A = Result ConfigError A

abbrev pub max_docker_timeout : ℤ
max_docker_timeout = pos 3600

abbrev pub max_auto_drain_minutes : ℤ
max_auto_drain_minutes = pos 1440

abbrev pub outside : ℤ → ℤ → ℤ → Bool
outside lo hi v = ltb_ℤ v lo || ltb_ℤ hi v

pub validate_percent : Text → ℤ → Checked (Unit {0})
validate_percent name value =
    reject_if (outside (pos 0) (pos 100) value) (percent_out_of_range name)

abbrev pub or_default : ℤ → ℤ → ℤ
or_default d v = if leb_ℤ v (pos 0) then d else v

abbrev pub text_or_default : Text → Text → Text
text_or_default d v = if text_eq v [] then d else v

pub known_providers : List Text
known_providers =
    provider_none ∷ provider_ntfy ∷ provider_telegram ∷ provider_discord ∷ provider_webhook ∷ []

pub drain_providers : List Text
drain_providers = provider_ntfy ∷ provider_telegram ∷ provider_discord ∷ provider_webhook ∷ []

-- The fields of `n` once trimmed, lowered and defaulted.
pub clean_notifications : NotificationsConfig → NotificationsConfig
clean_notifications n = record n {
  provider = text_or_default provider_none (to_lower (trim_space n.provider));
  webhook_url = trim_space n.webhook_url;
  chat_id = trim_space n.chat_id;
}

-- What delivery needs of enabled notifications.
pub check_enabled : NotificationsConfig → Checked (Unit {0})
check_enabled n =
    if n.enabled
    then (do
      reject_if (text_eq n.provider provider_none) enabled_needs_provider
      reject_if (text_eq n.webhook_url []) webhook_url_required
      reject_if (text_eq n.provider provider_telegram && text_eq n.chat_id []) chat_id_required)
    else ok tt

-- What `normalize` asks of cleaned notifications.
check_notifications : (Text → Bool) → NotificationsConfig → Checked NotificationsConfig
unfolding check_enabled
check_notifications valid_url c = do
  reject_if (not (mem_text c.provider known_providers)) unknown_notification_provider
  reject_if (ltb 2048 (len_bytes c.webhook_url)) webhook_url_too_long
  reject_if (ltb 128 (len_bytes c.chat_id)) chat_id_too_long
  reject_if (not (text_eq c.webhook_url []) && not (valid_url c.webhook_url)) webhook_url_invalid
  check_enabled c
  ok c

pub normalize_notifications : (Text → Bool) → NotificationsConfig → Checked NotificationsConfig
unfolding check_notifications
normalize_notifications valid_url n = check_notifications valid_url (clean_notifications n)

pub normalize_shutdown : ShutdownConfig → Checked ShutdownConfig
unfolding validate_percent
normalize_shutdown s = do
  validate_percent (codes "warning_threshold") s.warning_threshold
  validate_percent (codes "critical_threshold") s.critical_threshold
  reject_if (leb_ℤ s.warning_threshold s.critical_threshold) critical_not_below_warning
  ok s

pub normalize_docker : DockerConfig → Checked DockerConfig
normalize_docker d = do
  reject_if (outside (pos 0) max_docker_timeout d.timeout_seconds) docker_timeout_range
  ok d

pub normalize_safety : SafetyConfig → Checked SafetyConfig
unfolding validate_percent
normalize_safety s = do
  validate_percent (codes "minimum_battery_percent") s.minimum_battery_percent
  reject_if (outside (pos 0) (pos 86400) s.cooldown_seconds) safety_cooldown_range
  ok s

-- The loop of `normalizeNotificationServices`; `seen` is what `out` holds, newest first.
pub keep_services : List Text → List Text → List Text
keep_services seen [] = reverse seen
keep_services seen (raw ∷ rest) =
    let name = to_lower (trim_space raw) in
    keep_services
      (if mem_text name drain_providers && not (mem_text name seen) then name ∷ seen else seen) rest

pub or_ntfy : List Text → List Text
or_ntfy [] = provider_ntfy ∷ []
or_ntfy (s ∷ ss) = s ∷ ss

pub normalize_services : List Text → List Text
unfolding keep_services or_ntfy
normalize_services services = or_ntfy (keep_services [] services)

-- A zero among the numbers is replaced by its default, after its range is checked.
abbrev pub zero_default : ℤ → ℤ → ℤ
zero_default d v = if leb_ℤ v (pos 0) && leb_ℤ (pos 0) v then d else v

pub clean_on_no : Text → Text
clean_on_no raw = text_or_default on_user_no_continue (to_lower (trim_space raw))

-- What `normalize` asks of the settings of the smart drain, before it fills in the defaults.
check_auto_drain : AutoDrainConfig → Checked (Unit {0})
unfolding validate_percent
check_auto_drain a = do
  validate_percent (codes "battery_threshold_percent") a.battery_threshold_percent
  reject_if (outside (pos 0) max_auto_drain_minutes a.pre_notification_minutes)
      pre_notification_range
  reject_if (outside (pos 0) max_auto_drain_minutes a.response_timeout_minutes)
      response_timeout_range
  reject_if (not (text_eq (clean_on_no a.on_user_no) on_user_no_continue)) on_user_no_unsupported

abbrev clean_auto_drain : AutoDrainConfig → AutoDrainConfig
clean_auto_drain a = record a {
  battery_threshold_percent = zero_default (pos 10) a.battery_threshold_percent;
  pre_notification_minutes = zero_default (pos 30) a.pre_notification_minutes;
  response_timeout_minutes = zero_default (pos 10) a.response_timeout_minutes;
  notification_services = normalize_services a.notification_services;
  on_user_no = clean_on_no a.on_user_no;
}

pub normalize_auto_drain : AutoDrainConfig → Checked AutoDrainConfig
unfolding check_auto_drain
normalize_auto_drain a = do check_auto_drain a; ok (clean_auto_drain a)

unfoldable pub normalize_auth : AuthConfig → AuthConfig
normalize_auth a = record a {
  token_hash = trim_space a.token_hash;
  created_at = trim_space a.created_at;
  last_rotated_at = trim_space a.last_rotated_at;
}

abbrev pub slash : ℕ
slash = b'/'

-- `filepath.IsAbs` and `filepath.Base`.
unfoldable pub is_abs : Text → Bool
is_abs [] = false
is_abs (c ∷ s) = c == slash

drop_slashes : Text → Text
drop_slashes [] = []
drop_slashes (c ∷ s) = if c == slash then drop_slashes s else c ∷ s

until_slash : Text → Text
until_slash [] = []
until_slash (c ∷ s) = let rest = until_slash s in if c == slash then [] else c ∷ rest

base_of_trimmed : Text → Text
unfolding until_slash
base_of_trimmed [] = slash ∷ []
base_of_trimmed (c ∷ s) = reverse (until_slash (c ∷ s))

unfoldable pub base : Text → Text
unfolding drop_slashes base_of_trimmed
base [] = b'.' ∷ []
base (c ∷ s) = base_of_trimmed (drop_slashes (reverse (c ∷ s)))

-- The characters that a shell reads: `|&;<>$`, the backquote, newline and carriage return.
abbrev pub shell_chars : Text
shell_chars = b'|' ∷ b'&' ∷ b';' ∷ b'<' ∷ b'>' ∷ b'$' ∷ 96 ∷ 10 ∷ 13 ∷ []

pub validate_exec_path : Text → Text → List Text → Checked (Unit {0})
validate_exec_path field path allowed = if text_eq path [] then ok tt else (do
  reject_if (not (is_abs path)) (path_not_absolute field)
  reject_if (contains_any path shell_chars) (path_unsafe field)
  reject_if (not (mem_text (base path) allowed)) (path_wrong_base field))

-- The fields of `a` once defaulted and trimmed.
abbrev clean_actions : ActionsConfig → ActionsConfig
clean_actions a = record a {
  require_confirmation = true;
  cooldown_seconds = or_default (pos 60) a.cooldown_seconds;
  poweroff_path = trim_space a.poweroff_path;
  docker_path = trim_space a.docker_path;
  sync_path = trim_space a.sync_path;
  poweroff_timeout_secs = or_default (pos 30) a.poweroff_timeout_secs;
}

unfoldable pub check_actions : ActionsConfig → Checked ActionsConfig
unfolding validate_exec_path
check_actions c = do
  reject_if (ltb_ℤ (pos 86400) c.cooldown_seconds) actions_cooldown_range
  reject_if (ltb_ℤ (pos 600) c.poweroff_timeout_secs) poweroff_timeout_range
  validate_exec_path (codes "poweroff_path") c.poweroff_path
      (codes "systemctl" ∷ codes "poweroff" ∷ [])
  validate_exec_path (codes "docker_path") c.docker_path (codes "docker" ∷ [])
  validate_exec_path (codes "sync_path") c.sync_path (codes "sync" ∷ [])
  ok c

unfoldable pub normalize_actions : ActionsConfig → Checked ActionsConfig
unfolding check_actions
normalize_actions a = check_actions (clean_actions a)

abbrev pub known_kinds : List Text
known_kinds = codes "auto" ∷ codes "sysfs" ∷ codes "mock" ∷ []

abbrev pub known_methods : List Text
known_methods = codes "auto" ∷ codes "sysfs" ∷ codes "tlp" ∷ codes "none" ∷ []

pub normalize : (Text → Bool) → Config → Checked Config
unfolding normalize_auth
normalize valid_url c = do
  let kind = text_or_default (codes "auto") (to_lower (trim_space c.provider))
  reject_if (not (mem_text kind known_kinds)) unknown_provider
  let method = text_or_default (codes "auto") (to_lower (trim_space c.threshold_method))
  reject_if (not (mem_text method known_methods)) unknown_threshold_method
  notifications ← normalize_notifications valid_url c.notifications
  shutdown ← normalize_shutdown c.shutdown
  docker ← normalize_docker c.docker
  safety ← normalize_safety c.safety
  auto_drain ← normalize_auto_drain c.auto_drain
  actions ← normalize_actions c.actions
  ok (record c {
    provider = kind;
    threshold_method = method;
    notifications = notifications;
    shutdown = shutdown;
    docker = docker;
    safety = safety;
    auto_drain = auto_drain;
    auth = normalize_auth c.auth;
    actions = actions;
    power_poll = or_default (pos 5_000_000_000) c.power_poll;
    power_debounce = or_default (pos 10_000_000_000) c.power_debounce;
  })
