-- ===== src/Safety/AutoDrain.antt =====
-- The smart drain of internal/safety/auto_drain.go: its state, its gates, and its handlers cut at
-- the points where they give up the mutex, so that other calls may come in between.
pub mod Handlers
mod Gates
mod Examples
pub mod Calls
pub mod Schedule
use lap_guard.Base.{
  ℕ, ◌+◌, ◌*◌, ◌-◌, ◌/◌, ltb, leb, ◌==◌, ℤ, pos, pos_part, ltb_ℤ, leb_ℤ, ◌+ℤ◌, Bool, true, false,
  ◌&&◌, ◌||◌, not, Option, none, some, is_some, List, [], ◌∷◌, ◌++◌, Text, if◌then◌else◌,
}
use lap_guard.Config.{Config, Action, manual_actions_ready, provider_configured, allows_provider}
use lap_guard.Power.{Source, ac, source_eq}
use lap_guard.Safety.{Sample, recovery_margin, second, zero_sample}
use lap_guard.Safety.Executor.{Executor, recorder, full_plan}

pub data State : Type 0 where
  idle warning_sent awaiting_response executing aborted timeout : State

pub data Response : Type 0 where
  yes_response no_response timed_out : Response

-- The texts of `reason`; the empty one is `none`.
pub data Reason : Type 0 where
  disabled unconfigured docker_stop_off percent_unavailable not_discharging : Reason
  above_threshold provider_not_listed rearmed sending_warning notification_failed : Reason
  waiting ac_restored not_notified no_response_proceeding user_continues user_confirmed : Reason
  refusing_without_notification dry_run_recorded sequence_failed completed recorded_only : Reason
  reset_by_caller api_disabled : Reason

pub record AutoDrain : Type 0 where
  pub running : Bool
  pub state : State
  pub reason : Option Reason
  pub last_sample : Sample
  pub notified : Bool
  pub notified_at : ℕ
  pub deadline : ℕ
  pub last_response : Option Response
  pub commands_executed : Bool
  pub last_plan : List Action
  pub execute_trigger : Option Response

abbrev pub new : AutoDrain
new = record {
  running = false;
  state = idle;
  reason = none;
  last_sample = zero_sample;
  notified = false;
  notified_at = 0;
  deadline = 0;
  last_response = none;
  commands_executed = false;
  last_plan = [];
  execute_trigger = none;
}

unfoldable pub reset_to_idle : Reason → AutoDrain → AutoDrain
reset_to_idle reason a = record a {
  state = idle;
  reason = some reason;
  notified = false;
  notified_at = 0;
  deadline = 0;
  last_response = none;
  commands_executed = false;
  execute_trigger = none;
}

-- How the call of the notifier comes back.
pub data Delivery : Type 0 where
  delivered refused panicked : Delivery

-- What the constructor was given. `notifier` is `none` for a nil function; `live` is `none` for a
-- nil function and `some none` where it returns nil; it returns the same at each call, though the
-- program's own reads its settings again. `valid_url` stands for `validateHTTPURL`.
pub record Deps : Type 0 where
  pub has_notifier : Bool
  pub executor : Option Executor
  pub live : Option (Option Executor)
  pub valid_url : Text → Bool

-- `!sample.Discharging || sample.Source == power.SourceAC`
abbrev pub on_power : Sample → Bool
on_power s = not s.discharging || source_eq s.source ac

-- `sample.Percent == nil || *sample.Percent > limit`
abbrev pub is_above : Option ℤ → ℤ → Bool
is_above none limit = true
is_above (some p) limit = ltb_ℤ limit p

unfoldable pub notification_ready_reason : (Text → Bool) → Config → Option Reason
notification_ready_reason valid_url cfg =
    let n = cfg.notifications in
    if not n.enabled || not (provider_configured valid_url n)
    then some unconfigured
    else if not (allows_provider cfg.auto_drain n.provider)
    then some provider_not_listed
    else none

unfoldable pub start_block_reason : Deps → Config → Sample → Option Reason
start_block_reason d cfg s =
    if not cfg.auto_drain.enabled
    then some disabled
    else if not d.has_notifier
    then some unconfigured
    else if not cfg.docker.stop_enabled
    then some docker_stop_off
    else if not s.present || not (is_some s.percent)
    then some percent_unavailable
    else if on_power s
    then some not_discharging
    else if is_above s.percent cfg.auto_drain.battery_threshold_percent
    then some above_threshold
    else notification_ready_reason d.valid_url cfg

unfoldable pub execute_block_reason : Bool → Config → Sample → Option Reason
execute_block_reason notified cfg s =
    if not notified
    then some refusing_without_notification
    else if not cfg.auto_drain.enabled
    then some disabled
    else if not cfg.docker.stop_enabled
    then some docker_stop_off
    else if on_power s
    then some not_discharging
    else if is_above s.percent cfg.auto_drain.battery_threshold_percent
    then some above_threshold
    else none

abbrev above_margin : Option ℤ → ℤ → Bool
above_margin none limit = false
above_margin (some p) limit = ltb_ℤ (limit +ℤ recovery_margin) p

unfoldable pub recovered : Config → Sample → Bool
recovered cfg s =
    if on_power s then true else above_margin s.percent cfg.auto_drain.battery_threshold_percent

abbrev pub or_recorder : Option Executor → Executor
or_recorder none = recorder
or_recorder (some e) = e

abbrev pub called : Option (Option Executor) → Option Executor
called none = none
called (some e) = e

abbrev pub first_some : Option Executor → Option Executor → Option Executor
first_some none e = e
first_some (some e) _ = some e

unfoldable pub pick_executor : Deps → Config → Executor
pick_executor d cfg =
    if not (manual_actions_ready cfg)
    then or_recorder d.executor
    else or_recorder (first_some (called d.live) d.executor)

-- The gates that a snapshot lists.
pub data DrainGate : Type 0 where
  auto_drain_disabled docker_stop_disabled safety_dry_run real_actions_disabled : DrainGate
  battery_not_discharging battery_above_threshold notification_unconfigured : DrainGate

abbrev pub gate_if : Bool → DrainGate → List DrainGate → List DrainGate
gate_if true g rest = g ∷ rest
gate_if false g rest = rest

unfoldable pub auto_drain_gates : (Text → Bool) → Config → Sample → List DrainGate
auto_drain_gates valid_url cfg s = gate_if (not cfg.auto_drain.enabled) auto_drain_disabled (
    gate_if (not cfg.docker.stop_enabled) docker_stop_disabled (
      gate_if cfg.safety.dry_run safety_dry_run (
        gate_if (not cfg.actions.real_enabled) real_actions_disabled (
          gate_if (on_power s) battery_not_discharging (
            gate_if (is_above s.percent cfg.auto_drain.battery_threshold_percent)
              battery_above_threshold
              (gate_if (is_some (notification_ready_reason valid_url cfg)) notification_unconfigured
                []))))))

unfoldable pub is_awaiting : State → Bool
is_awaiting warning_sent = true
is_awaiting awaiting_response = true
is_awaiting _ = false

-- What `snapshotLocked` derives from the state, beside the fields it copies.
pub record Snapshot : Type 0 where
  pub state : State
  pub awaiting_response : Bool
  pub seconds_remaining : ℕ
  pub notified_at : Option ℕ
  pub commands_executed : Bool
  pub plan : List Action
  pub gates : List DrainGate

-- A duration is cut to whole seconds, and 0 where it is negative. The plan is a copy, which is not
-- nil even where nothing was planned, so that the default of the source is never taken.
unfoldable pub snapshot : (Text → Bool) → Config → ℕ → AutoDrain → Snapshot
unfolding is_awaiting
snapshot valid_url cfg clock a =
    let awaiting = is_awaiting a.state in
    record {
      state = a.state;
      awaiting_response = awaiting;
      seconds_remaining =
          if awaiting && not (a.deadline == 0) then (a.deadline - clock) / second else 0;
      notified_at = if a.notified_at == 0 then none else some a.notified_at;
      commands_executed = a.commands_executed;
      plan = a.last_plan;
      gates = auto_drain_gates valid_url cfg a.last_sample;
    }
