-- ===== src/Safety/Controller.antt =====
-- The battery safety controller of internal/safety/controller.go. It classifies the battery, latches
-- its events and plans actions; it holds an executor and never calls it.
mod Plans
mod Cycles
mod Examples
use lap_guard.Base.{
  ℕ, ◌+◌, ◌*◌, ltb, leb, ◌==◌, ℤ, pos, pos_part, ltb_ℤ, leb_ℤ, ◌+ℤ◌, Bool, true, false, ◌&&◌, ◌||◌,
  not, Option, none, some, is_some, List, [], ◌∷◌, ◌++◌, Text, codes, text_eq, Result, ok, err,
  if◌then◌else◌,
}
use lap_guard.Config.{Config, DockerConfig, Action, stop_docker, sync, power_off}
use lap_guard.Power.{Source, ac, battery, source_eq}
use lap_guard.Safety.{Sample, recovery_margin, second, stamp, zero_sample}

pub data State : Type 0 where
  normal warning critical shutdown_pending ac_connected unknown : State

pub data EventKind : Type 0 where
  battery_warning battery_critical : EventKind

pub record Event : Type 0 where
  pub kind : EventKind
  pub timestamp : ℕ
  pub percent : Option ℤ
  pub state : State

-- The texts of `reason`; the empty one is `none`.
pub data Reason : Type 0 where
  percent_unavailable below_minimum on_ac ac_unknown not_discharging at_critical : Reason
  already_planned at_warning : Reason

pub record Latches : Type 0 where
  pub warning_latched : Bool
  pub critical_latched : Bool
  pub shutdown_latched : Bool

abbrev pub no_latches : Latches
no_latches = record { warning_latched = false; critical_latched = false; shutdown_latched = false }

pub record Controller : Type 0 where
  pub running : Bool
  pub state : State
  pub latches : Latches
  pub last_event : Option Event
  pub last_plan : List Action
  pub last_action_at : ℕ
  pub last_sample : Sample
  pub reason : Option Reason

pub new : Controller
new = record {
  running = false;
  state = unknown;
  latches = no_latches;
  last_event = none;
  last_plan = [];
  last_action_at = 0;
  last_sample = zero_sample;
  reason = none;
}

-- What `evaluateLocked` returns.
pub record Verdict : Type 0 where
  pub event : Option Event
  pub plan : List Action
  pub reason : Option Reason
  pub state : State

abbrev quiet : Option Reason → State → Verdict
quiet reason state = record { event = none; plan = []; reason = reason; state = state }

unlatch_if_recovered : ℤ → ℤ → ℤ → Latches → Latches
unlatch_if_recovered pct w k l =
    let l' = if ltb_ℤ (w +ℤ recovery_margin) pct then record l { warning_latched = false } else l in
    if ltb_ℤ (k +ℤ recovery_margin) pct
    then record l' { critical_latched = false; shutdown_latched = false }
    else l'

cooldown_elapsed : ℕ → ℕ → ℤ → Bool → Bool
cooldown_elapsed last_action_at now seconds force =
    if force || leb_ℤ seconds (pos 0) || last_action_at == 0
    then true
    else not (ltb now (last_action_at + pos_part seconds * second))

unfoldable pub intended_plan : DockerConfig → List Action
intended_plan docker =
    (if docker.stop_enabled then stop_docker ∷ [] else []) ++ (sync ∷ power_off ∷ [])

-- The case `pct <= critical`.
critical_case : Config → Sample → ℤ → ℕ → Latches → Latches × Verdict
unfolding cooldown_elapsed
critical_case cfg s pct last l =
    let state = if cfg.shutdown.enabled then shutdown_pending else critical in
    if not l.critical_latched
    then (let planned =
          cfg.shutdown.enabled && cooldown_elapsed last s.now cfg.safety.cooldown_seconds s.force in
        (
          record {
            warning_latched = true;
            critical_latched = true;
            shutdown_latched = if planned then true else l.shutdown_latched;
          },
          record {
            event = some (record {
              kind = battery_critical;
              timestamp = s.now;
              percent = some pct;
              state = state;
            });
            plan = if planned then intended_plan cfg.docker else [];
            reason = some at_critical;
            state = state;
          },
        ))
    else if l.shutdown_latched && cfg.shutdown.enabled
    then (l, quiet (some already_planned) shutdown_pending)
    else (l, quiet (some at_critical) state)

warning_case : Sample → ℤ → Latches → Latches × Verdict
warning_case s pct l =
    if not l.warning_latched
    then (
      record l { warning_latched = true },
      record {
        event = some (record {
          kind = battery_warning;
          timestamp = s.now;
          percent = some pct;
          state = warning;
        });
        plan = [];
        reason = some at_warning;
        state = warning;
      },
    )
    else (l, quiet (some at_warning) warning)

discharging_case : Config → Sample → ℤ → ℕ → Latches → Latches × Verdict
unfolding critical_case warning_case
discharging_case cfg s pct last l =
    if leb_ℤ pct cfg.shutdown.critical_threshold
    then critical_case cfg s pct last l
    else if leb_ℤ pct cfg.shutdown.warning_threshold
    then warning_case s pct l
    else (l, quiet none normal)

known_percent : Config → Sample → ℤ → ℕ → Latches → Latches × Verdict
known_percent cfg s pct last l =
    let w = cfg.shutdown.warning_threshold in
    let k = cfg.shutdown.critical_threshold in
    let minimum = cfg.safety.minimum_battery_percent in
    if ltb_ℤ (pos 0) minimum && ltb_ℤ pct minimum
    then (l, quiet (some below_minimum) unknown)
    else if source_eq s.source ac
    then (no_latches, quiet (some on_ac) ac_connected)
    else if cfg.safety.require_ac_loss && not (source_eq s.source battery)
    then (l, quiet (some ac_unknown) unknown)
    else if source_eq s.source Source.unknown
    then (l, quiet (some ac_unknown) unknown)
    else if not s.discharging
    then (
      if ltb_ℤ w pct then unlatch_if_recovered pct w k l else l,
      quiet (some not_discharging) normal,
    )
    else discharging_case cfg s pct last (unlatch_if_recovered pct w k l)

abbrev on_percent : Config → Sample → Option ℤ → ℕ → Latches → Latches × Verdict
on_percent cfg s none last l = (l, quiet (some percent_unavailable) unknown)
on_percent cfg s (some pct) last l = known_percent cfg s pct last l

pub evaluate : Config → Sample → ℕ → Latches → Latches × Verdict
unfolding known_percent
evaluate cfg s last l =
    if not s.present
    then (l, quiet (some percent_unavailable) unknown)
    else on_percent cfg s s.percent last l

abbrev has_plan : List Action → Bool
has_plan [] = false
has_plan (a ∷ rest) = true

-- `Tick`: the controller after the sample, and the event that is sent to the notifier, if any.
pub tick : Config → ℕ → Sample → Controller → Controller × Option Event
tick cfg clock raw c =
    let s = stamp clock raw in
    let (l, v) = evaluate cfg s c.last_action_at c.latches in
    (
      record c {
        last_sample = s;
        state = v.state;
        reason = v.reason;
        latches = l;
        last_plan = if has_plan v.plan then v.plan else c.last_plan;
        last_action_at = if has_plan v.plan then s.now else c.last_action_at;
        last_event = if is_some v.event then v.event else c.last_event;
      },
      v.event,
    )

-- `Poll`: a read that fails (`none`), or the lack of a reader, changes nothing.
pub poll : Config → ℕ → Option Sample → Controller → Controller × Option Event
poll cfg clock none c = (c, none)
poll cfg clock (some s) c = tick cfg clock s c

abbrev consed : Option Event → List Event → List Event
consed none es = es
consed (some e) es = e ∷ es

-- The ticks of `Run`, oldest first, each with the clock: the controller they leave and the events.
pub run : Config → List (ℕ × Sample) → Controller → Controller × List Event
run cfg [] c = (c, [])
run cfg ((clock, s) ∷ rest) c =
    let (c', ev) = tick cfg clock s c in let (c'', evs) = run cfg rest c' in (c'', consed ev evs)

pub data Scenario : Type 0 where
  simulate_warning simulate_critical : Scenario

-- The scenario of a text; `none` is ErrUnknownScenario.
pub scenario_of : Text → Option Scenario
scenario_of t =
    if text_eq t (codes "warning")
    then some simulate_warning
    else if text_eq t (codes "critical")
    then some simulate_critical
    else none

simulated_percent : Config → Scenario → ℤ
simulated_percent cfg simulate_warning =
    let w = cfg.shutdown.warning_threshold in
    let k = cfg.shutdown.critical_threshold in if leb_ℤ w k then k +ℤ pos 1 else w
simulated_percent cfg simulate_critical = cfg.shutdown.critical_threshold

abbrev unlatched : Scenario → Latches → Latches
unlatched simulate_warning l = record l { warning_latched = false }
unlatched simulate_critical l = no_latches

simulated_sample : Config → ℕ → Scenario → Sample
unfolding simulated_percent
simulated_sample cfg clock scenario = record {
  now = clock;
  present = true;
  percent = some (simulated_percent cfg scenario);
  status = codes "Discharging";
  discharging = true;
  source = battery;
  force = true;
}

-- `Simulate`, for a known scenario.
pub simulate : Config → ℕ → Scenario → Controller → Controller × Option Event
unfolding simulated_sample
simulate cfg clock scenario c =
    tick cfg clock (simulated_sample cfg clock scenario)
      (record c { latches = unlatched scenario c.latches })

-- `Simulate` on the text of a request.
pub simulate_text : Config → ℕ → Text → Controller → Controller × Result (Unit {0}) (Option Event)
simulate_text cfg clock t c = elim (scenario_of t) [
  | none ↦ (c, err tt)
  | some scenario ↦ (let (c', ev) = simulate cfg clock scenario c in (c', ok ev))
]
