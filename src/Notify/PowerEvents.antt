-- ===== src/Notify/PowerEvents.antt =====
-- Notifications about the mains: HandlePower and EventFromPower of internal/notify/notify.go, and
-- its SanitizeError. Printing a number and a duration of a minute or more is a parameter.
mod Examples
use lap_guard.Base.{
  ℕ, ◌+◌, ◌*◌, ◌/◌, ltb, Bool, true, false, ◌||◌, Option, none, some, [], Text, codes, ◌++◌,
  contains, to_lower, len_bytes, if◌then◌else◌,
}
use lap_guard.Config.{NotificationsConfig}
use lap_guard.Power.Watcher.{Transition}
use lap_guard.Notify.{EventType, ac_disconnected, ac_connected, other}
use lap_guard.Notify.Limiter.{Limiter}
use lap_guard.Notify.Retry.{SendError, canceled, deadline_exceeded}
use lap_guard.Notify.Service.{
  NotificationEvent, ServiceError, Attempted, nothing, failed, send, skip_notify_err,
}

-- `%d`, and `String` of a duration of whole seconds.
pub record Printer : Type 0 where
  pub decimal : ℕ → Text
  pub duration : ℕ → Text

abbrev rounded_seconds : ℕ → ℕ
rounded_seconds ms = (ms + 500) / 1000

-- `formatDurationMS`; the watcher's durations are not negative.
unfoldable pub format_duration_ms : Printer → ℕ → Text
format_duration_ms p ms =
    if ltb ms 60000
    then p.decimal (rounded_seconds ms) ++ codes " seconds"
    else p.duration (rounded_seconds ms)

abbrev restored_message : Printer → Option ℕ → Text
restored_message p none = codes "AC power restored."
restored_message p (some ms) =
    codes "AC power restored after " ++ (format_duration_ms p ms ++ codes ".")

abbrev event_of : Printer → lap_guard.Power.EventType → ℕ → Option ℕ → Option NotificationEvent
event_of p lap_guard.Power.ac_disconnected at lasted = some (record {
  kind = ac_disconnected;
  title = codes "LapGuard: AC power lost";
  message = codes "AC power lost. Running on battery.";
  timestamp = at;
})
event_of p lap_guard.Power.ac_connected at lasted = some (record {
  kind = ac_connected;
  title = codes "LapGuard: AC power restored";
  message = restored_message p lasted;
  timestamp = at;
})
event_of p lap_guard.Power.ac_unknown at lasted = none

-- `EventFromPower` for the two events that HandlePower passes on; `none` for the others.
unfoldable pub event_from_power : Printer → Transition → Option NotificationEvent
unfolding format_duration_ms
event_from_power p tr = event_of p tr.kind tr.at tr.duration_ms

-- An error that HandlePower keeps to itself.
abbrev reported : Option ServiceError → Option ServiceError
reported e = if skip_notify_err e then none else e

abbrev send_if :
    (Text → Bool)
    → (NotificationEvent → Option SendError)
    → NotificationsConfig
    → ℕ
    → ℕ
    → Option NotificationEvent
    → Limiter
    → Limiter × Option ServiceError × Attempted
send_if valid_url outcome cfg clock now none l = (l, none, nothing)
send_if valid_url outcome cfg clock now (some e) l =
    let (l', problem, tried) = send valid_url outcome cfg clock now e l in
    (l', reported problem, tried)

-- `HandlePower`
unfoldable pub handle_power :
    Printer
    → (Text → Bool)
    → (NotificationEvent → Option SendError)
    → NotificationsConfig
    → ℕ
    → ℕ
    → Transition
    → Limiter
    → Limiter × Option ServiceError × Attempted
unfolding event_from_power
handle_power p valid_url outcome cfg clock now tr l =
    send_if valid_url outcome cfg clock now (event_from_power p tr) l

-- `SanitizeError`; `message` is the text of an error that is no end of a context.
unfoldable pub sanitize_error : (SendError → Text) → Option SendError → Text
sanitize_error message none = []
sanitize_error message (some canceled) = codes "cancelled"
sanitize_error message (some deadline_exceeded) = codes "delivery timed out"
sanitize_error message (some e) =
    let msg = message e in
    if contains msg (codes "://")
      || (contains (to_lower msg) (codes "webhook") || contains (to_lower msg) (codes "token"))
    then codes "delivery failed"
    else if ltb 160 (len_bytes msg)
    then codes "delivery failed"
    else msg
