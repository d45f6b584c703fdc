-- ===== src/Config/Normalize/Bounds.antt =====
-- What the normalised settings satisfy (internal/config, the `normalize` methods).
use lap_guard.Base.{
  ◌≡◌, ◌↔◌, ℤ, pos, ◌≤ℤ◌, ◌<ℤ◌, Bool, true, Text, trim_space, ok, arith, text_eq→eq,
}
use lap_guard.Config.{
  Config, ShutdownConfig, DockerConfig, SafetyConfig, AutoDrainConfig, ActionsConfig,
  on_user_no_continue,
}
use lap_guard.Config.Normalize.{
  normalize_shutdown, normalize_docker, normalize_safety, normalize_auto_drain, normalize_actions,
  normalize, clean_on_no, check_actions, check_auto_drain,
}

abbrev pub Between : ℤ → ℤ → ℤ → Type 0
Between lo hi v = (lo ≤ℤ v) × (v ≤ℤ hi)

pub record ShutdownIsValid (s : ShutdownConfig) : Type 0 where
  pub warning : Between (pos 0) (pos 100) s.warning_threshold
  pub critical : Between (pos 0) (pos 100) s.critical_threshold
  pub ordered : s.critical_threshold <ℤ s.warning_threshold

pub record SafetyIsValid (s : SafetyConfig) : Type 0 where
  pub minimum : Between (pos 0) (pos 100) s.minimum_battery_percent
  pub cooldown : Between (pos 0) (pos 86400) s.cooldown_seconds

pub record AutoDrainIsValid (a : AutoDrainConfig) : Type 0 where
  pub threshold : Between (pos 1) (pos 100) a.battery_threshold_percent
  pub pre_notification : Between (pos 1) (pos 1440) a.pre_notification_minutes
  pub response : Between (pos 1) (pos 1440) a.response_timeout_minutes
  pub on_no : a.on_user_no ≡ on_user_no_continue

pub record ActionsIsValid (a : ActionsConfig) : Type 0 where
  pub confirmed : a.require_confirmation ≡ true
  pub cooldown : Between (pos 1) (pos 86400) a.cooldown_seconds
  pub timeout : Between (pos 1) (pos 600) a.poweroff_timeout_secs

pub record IsValid (c : Config) : Type 0 where
  pub shutdown : ShutdownIsValid c.shutdown
  pub docker : Between (pos 0) (pos 3600) c.docker.timeout_seconds
  pub safety : SafetyIsValid c.safety
  pub auto_drain : AutoDrainIsValid c.auto_drain
  pub actions : ActionsIsValid c.actions
  pub poll : pos 1 ≤ℤ c.power_poll
  pub debounce : pos 1 ≤ℤ c.power_debounce

pub normalize_shutdown-IsValid :
    (s : ShutdownConfig) {t : ShutdownConfig} → normalize_shutdown s ≡ ok t → ShutdownIsValid t
unfolding normalize_shutdown
normalize_shutdown-IsValid s h = ground arith

pub normalize_docker-valid :
    (d : DockerConfig) {e : DockerConfig}
    → normalize_docker d ≡ ok e
    → Between (pos 0) (pos 3600) e.timeout_seconds
unfolding normalize_docker
normalize_docker-valid d h = ground arith

pub normalize_safety-IsValid :
    (s : SafetyConfig) {t : SafetyConfig} → normalize_safety s ≡ ok t → SafetyIsValid t
unfolding normalize_safety
normalize_safety-IsValid s h = ground arith

pub normalize_auto_drain-IsValid :
    (a : AutoDrainConfig) {b : AutoDrainConfig} → normalize_auto_drain a ≡ ok b → AutoDrainIsValid b
unfolding normalize_auto_drain check_auto_drain
normalize_auto_drain-IsValid a h =
    ground (arith, text_eq→eq (clean_on_no a.on_user_no) on_user_no_continue)

pub normalize_actions-IsValid :
    (a : ActionsConfig) {b : ActionsConfig} → normalize_actions a ≡ ok b → ActionsIsValid b
unfolding normalize_actions check_actions
normalize_actions-IsValid a h = ground arith

-- The paths of the executables are only trimmed.
pub normalize_actions-paths :
    (a : ActionsConfig) {b : ActionsConfig}
    → normalize_actions a ≡ ok b
    → (b.poweroff_path ≡ trim_space a.poweroff_path)
      × (b.docker_path ≡ trim_space a.docker_path)
      × (b.sync_path ≡ trim_space a.sync_path)
unfolding normalize_actions check_actions
normalize_actions-paths a h = ground arith

-- Each group of accepted settings is what its own check accepts.
record Parts (c d : Config) : Type 0 where
  shutdown : normalize_shutdown c.shutdown ≡ ok d.shutdown
  docker : normalize_docker c.docker ≡ ok d.docker
  safety : normalize_safety c.safety ≡ ok d.safety
  auto_drain : normalize_auto_drain c.auto_drain ≡ ok d.auto_drain
  actions : normalize_actions c.actions ≡ ok d.actions
  poll : pos 1 ≤ℤ d.power_poll
  debounce : pos 1 ≤ℤ d.power_debounce

normalize-Parts :
    (valid_url : Text → Bool) (c : Config) {d : Config} → normalize valid_url c ≡ ok d → Parts c d
unfolding normalize
normalize-Parts valid_url c h = ground arith

pub normalize-actions :
    (valid_url : Text → Bool) (c : Config) {d : Config}
    → normalize valid_url c ≡ ok d
    → normalize_actions c.actions ≡ ok d.actions
normalize-actions valid_url c h = (normalize-Parts valid_url c h).actions

-- Settings that `normalize` accepts are in range in every group, and confirmation is required.
pub normalize-IsValid :
    (valid_url : Text → Bool) (c : Config) {d : Config} → normalize valid_url c ≡ ok d → IsValid d
normalize-IsValid valid_url c h =
    let p = normalize-Parts valid_url c h in
    record {
      shutdown = normalize_shutdown-IsValid c.shutdown p.shutdown;
      docker = normalize_docker-valid c.docker p.docker;
      safety = normalize_safety-IsValid c.safety p.safety;
      auto_drain = normalize_auto_drain-IsValid c.auto_drain p.auto_drain;
      actions = normalize_actions-IsValid c.actions p.actions;
      poll = p.poll;
      debounce = p.debounce;
    }

-- A pair of thresholds is accepted exactly when both are percentages and critical is below warning.
pub normalize_shutdown_accepts :
    (s : ShutdownConfig) → (normalize_shutdown s ≡ ok s) ↔ ShutdownIsValid s
unfolding normalize_shutdown
normalize_shutdown_accepts s = (λ h. ground arith, λ v. ground arith)
