-- ===== src/Safety/AutoDrain/Handlers.antt =====
-- The handlers Tick, Respond, Reset and execute of internal/safety/auto_drain.go. Each part is what
-- runs under the mutex at a stretch; `tick` and `respond` join the parts of one undisturbed call.
use lap_guard.Base.{
  ℕ, ◌+◌, ◌*◌, ltb, pos, pos_part, leb_ℤ, Bool, true, false, ◌&&◌, not, Option, none, some, Text,
  codes, text_eq, to_lower, trim_space, Result, ok, err, if◌then◌else◌,
}
use lap_guard.Config.{Config, manual_actions_ready}
use lap_guard.Safety.{Sample, second, stamp}
use lap_guard.Safety.Executor.{Executor, ExecError, full_plan}
use lap_guard.Safety.AutoDrain.{
  State, idle, warning_sent, awaiting_response, executing, aborted, timeout, Response, yes_response,
  no_response, timed_out, Reason, disabled, rearmed, sending_warning, notification_failed, waiting,
  ac_restored, not_notified, no_response_proceeding, user_continues, user_confirmed,
  refusing_without_notification, dry_run_recorded, sequence_failed, completed, recorded_only,
  AutoDrain, reset_to_idle, Delivery, delivered, refused, panicked, Deps, on_power,
  start_block_reason, execute_block_reason, recovered, pick_executor, is_awaiting,
}

-- How a stretch under the mutex ends: the call is over, or goes on without the mutex by sending the
-- warning, or by executing.
pub data Next : Type 0 where
  settled : Next
  send : Config → Sample → Next
  execute : Config → Sample → Response → Next

abbrev Part : Type 0
Part = AutoDrain × Next

-- `Idle` of Tick's switch.
abbrev from_idle : Config → Sample → Option Reason → AutoDrain → Part
from_idle cfg s (some reason) a = (record a { reason = some reason }, settled)
from_idle cfg s none a =
    (record a { state = warning_sent; reason = some sending_warning }, send cfg s)

-- `AwaitingResponse` of Tick's switch.
from_awaiting : Config → Sample → AutoDrain → Part
from_awaiting cfg s a =
    if on_power s
    then (reset_to_idle ac_restored a, settled)
    else if not a.notified
    then (reset_to_idle not_notified a, settled)
    else if ltb s.now a.deadline
    then (record a { reason = some waiting }, settled)
    else (
      record a {
        last_response = some timed_out;
        state = timeout;
        reason = some no_response_proceeding;
      },
      execute cfg s timed_out,
    )

by_state : Deps → Config → Sample → State → AutoDrain → Part
unfolding from_awaiting
by_state d cfg s idle a = from_idle cfg s (start_block_reason d cfg s) a
by_state d cfg s warning_sent a = from_awaiting cfg s (record a { state = awaiting_response })
by_state d cfg s awaiting_response a = from_awaiting cfg s a
by_state d cfg s executing a = (a, settled)
by_state d cfg s aborted a = (a, settled)
by_state d cfg s timeout a = (a, settled)

abbrev rearms : State → Bool
rearms aborted = true
rearms timeout = true
rearms executing = true
rearms _ = false

-- Tick up to the first point where it gives up the mutex.
unfoldable pub begin_tick : Deps → Config → ℕ → Sample → AutoDrain → Part
unfolding by_state
begin_tick d cfg clock raw a0 =
    let s = stamp clock raw in
    let a1 = record a0 { last_sample = s } in
    if not cfg.auto_drain.enabled
    then (reset_to_idle disabled a1, settled)
    else (let a = if recovered cfg s && rearms a1.state then reset_to_idle rearmed a1 else a1 in
        by_state d cfg s a.state a)

-- `sendWarning` returns no error for a delivered warning, nor where the notifier panics: the panic
-- is recovered and the function's result stays nil.
unfoldable pub sent_ok : Delivery → Bool
sent_ok delivered = true
sent_ok refused = false
sent_ok panicked = true

-- The response timeout in nanoseconds.
response_timeout : Config → ℕ
response_timeout cfg =
    let m = cfg.auto_drain.response_timeout_minutes in
    if leb_ℤ m (pos 0) then 10 * (60 * second) else pos_part m * (60 * second)

-- Tick after `sendWarning` has returned.
unfoldable pub end_send : Config → Sample → Delivery → AutoDrain → AutoDrain
unfolding sent_ok response_timeout
end_send cfg s outcome a =
    if sent_ok outcome
    then record a {
      notified = true;
      notified_at = s.now;
      deadline = s.now + response_timeout cfg;
      state = awaiting_response;
      reason = some waiting;
    }
    else reset_to_idle notification_failed a

-- The sequence that `execute` goes on to run, with the configuration it read.
pub data Launch : Type 0 where
  blocked : Launch
  launch : Config → Executor → Launch

abbrev trigger_state : Response → State
trigger_state timed_out = timeout
trigger_state _ = executing

abbrev launched : Deps → Config → Option Reason → AutoDrain → AutoDrain × Launch
launched d cfg (some reason) a =
    (record a { reason = some reason; commands_executed = false }, blocked)
launched d cfg none a = (
  record a { reason = if cfg.safety.dry_run then some dry_run_recorded else a.reason },
  launch cfg (pick_executor d cfg),
)

-- `execute` up to the point where it gives up the mutex.
unfoldable pub begin_execute : Deps → Config → Sample → Response → AutoDrain → AutoDrain × Launch
begin_execute d cfg s trigger a =
    if not a.notified
    then (
      record a { reason = some refusing_without_notification; commands_executed = false },
      blocked,
    )
    else launched d cfg (execute_block_reason a.notified cfg s) (record a {
      execute_trigger = some trigger;
      state = trigger_state trigger;
      last_plan = full_plan;
    })

-- `execute` after the sequence, with what it came to.
unfoldable pub end_execute : Config → Option ExecError → AutoDrain → AutoDrain
end_execute cfg (some e) a = record a { commands_executed = false; reason = some sequence_failed }
end_execute cfg none a =
    let real = manual_actions_ready cfg && not cfg.safety.dry_run in
    record a { commands_executed = real; reason = some (if real then completed else recorded_only) }

pub data RespondError : Type 0 where
  invalid_action no_pending : RespondError

unfoldable pub parse_action : Text → Option Response
parse_action raw =
    let t = to_lower (trim_space raw) in
    if text_eq t (codes "yes")
    then some yes_response
    else if text_eq t (codes "no")
    then some no_response
    else none

-- Respond once a prompt is known to be pending.
answered : Config → ℕ → Response → AutoDrain → Part
answered cfg clock no_response a = (
  record a { last_response = some no_response; state = aborted; reason = some user_continues },
  settled,
)
answered cfg clock r a = (
  record a { last_response = some r; state = executing; reason = some user_confirmed },
  execute cfg (stamp clock a.last_sample) r,
)

abbrev accepted : Part → AutoDrain × Result RespondError Next
accepted (a, next) = (a, ok next)

-- Respond for a known answer, up to the first point where it gives up the mutex.
unfoldable pub begin_respond :
    Config → ℕ → Response → AutoDrain → AutoDrain × Result RespondError Next
unfolding is_awaiting answered
begin_respond cfg clock answer a =
    if not (is_awaiting a.state)
    then (a, err no_pending)
    else if not a.notified
    then (reset_to_idle not_notified a, err no_pending)
    else accepted (answered cfg clock answer a)
