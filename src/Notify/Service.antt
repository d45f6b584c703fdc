-- ===== src/Notify/Service.antt =====
-- The notification service of internal/notify/notify.go: what Send does with an event.
mod Laws
mod Examples
use lap_guard.Base.{
  ℕ, ◌==◌, Bool, true, false, ◌&&◌, ◌||◌, not, Option, none, some, [], Text, codes, text_eq,
  if◌then◌else◌,
}
use lap_guard.Config.{NotificationsConfig, provider_configured}
use lap_guard.Notify.{
  EventType, ac_disconnected, ac_connected, battery_warning, battery_critical, test_event,
  auto_drain, other,
}
use lap_guard.Notify.Limiter.{Limiter, allow}
use lap_guard.Notify.Retry.{SendError, canceled, deadline_exceeded}

pub record NotificationEvent : Type 0 where
  pub kind : EventType
  pub title : Text
  pub message : Text
  pub timestamp : ℕ

-- The text of an event type.
unfoldable pub name : EventType → Text
name ac_disconnected = codes "AC_DISCONNECTED"
name ac_connected = codes "AC_CONNECTED"
name battery_warning = codes "BATTERY_WARNING"
name battery_critical = codes "BATTERY_CRITICAL"
name test_event = codes "TEST"
name auto_drain = codes "AUTO_DRAIN_WARNING"
name (other t) = t

unfoldable pub allowed_event : EventType → Bool
allowed_event (other t) = false
allowed_event _ = true

-- The title and the message of an event that comes without them.
unfoldable pub default_copy : EventType → Text × Text
default_copy ac_disconnected =
    (codes "LapGuard: AC power lost", codes "AC power lost. Running on battery.")
default_copy ac_connected = (codes "LapGuard: AC power restored", codes "AC power restored.")
default_copy battery_warning =
    (codes "LapGuard: battery warning", codes "Battery charge has reached the warning threshold.")
default_copy battery_critical =
    (codes "LapGuard: battery critical", codes "Battery charge has reached the critical threshold.")
default_copy test_event =
    (codes "LapGuard: test notification", codes "LapGuard test notification. Delivery is working.")
default_copy auto_drain = (
  codes "LapGuard: battery low",
  codes "Battery low! In 30min: [YES] Save+Stop / [NO] Let run. Confirm in the LapGuard dashboard.",
)
default_copy (other t) = (codes "LapGuard", t)

abbrev or_text : Text → Text → Text
or_text t d = if text_eq t [] then d else t

unfoldable pub normalize_event : ℕ → NotificationEvent → NotificationEvent
unfolding default_copy
normalize_event clock e = record e {
  title = or_text e.title (default_copy e.kind).0;
  message = or_text e.message (default_copy e.kind).1;
  timestamp = if e.timestamp == 0 then clock else e.timestamp;
}

pub data ServiceError : Type 0 where
  disabled not_configured unsupported rate_limited : ServiceError
  failed : SendError → ServiceError

-- Which events pass the limiter by.
unfoldable pub is_unlimited : EventType → Bool
is_unlimited test_event = true
is_unlimited auto_drain = true
is_unlimited _ = false

-- Whether `deliver` was called, with retries, and for which event.
pub data Attempted : Type 0 where
  nothing : Attempted
  deliveries : NotificationEvent → Attempted

abbrev delivered : Option SendError → Option ServiceError
delivered none = none
delivered (some e) = some (failed e)

-- `withRetry` around `deliver` comes to `outcome` for an event.
abbrev try_deliver :
    Bool
    → (NotificationEvent → Option SendError)
    → NotificationEvent
    → Option ServiceError × Attempted
try_deliver dry_run outcome e =
    if dry_run then (none, nothing) else (delivered (outcome e), deliveries e)

abbrev limited : ℕ → EventType → Limiter → Limiter × Bool
limited now kind l = if is_unlimited kind then (l, true) else allow now (name kind) l

-- `Send`: the limiter afterwards, the error, and what was tried. `outcome` says what delivering an
-- event with retries comes to; `clock` dates an event without a time, and `now` is the limiter's.
unfoldable pub send :
    (Text → Bool)
    → (NotificationEvent → Option SendError)
    → NotificationsConfig
    → ℕ
    → ℕ
    → NotificationEvent
    → Limiter
    → Limiter × Option ServiceError × Attempted
unfolding normalize_event
send valid_url outcome cfg clock now raw l =
    if not cfg.enabled
    then (l, some disabled, nothing)
    else if not (provider_configured valid_url cfg)
    then (l, some not_configured, nothing)
    else if not (allowed_event raw.kind)
    then (l, some unsupported, nothing)
    else (let e = normalize_event clock raw in
        let (l', passes) = limited now e.kind l in
        if not passes
        then (l', some rate_limited, nothing)
        else (let (problem, tried) = try_deliver cfg.dry_run outcome e in (l', problem, tried)))

-- `skipNotifyErr`
unfoldable pub skip_notify_err : Option ServiceError → Bool
skip_notify_err none = true
skip_notify_err (some (failed e)) = false
skip_notify_err (some _) = true

-- The texts of PublicFailure; the empty one is `none`.
pub data PublicText : Type 0 where
  is_disabled no_provider unsupported_event limited_rate timed_out delivery_failed : PublicText

unfoldable pub public_failure : Option ServiceError → Option PublicText
public_failure none = none
public_failure (some disabled) = some is_disabled
public_failure (some not_configured) = some no_provider
public_failure (some unsupported) = some unsupported_event
public_failure (some rate_limited) = some limited_rate
public_failure (some (failed canceled)) = some timed_out
public_failure (some (failed deadline_exceeded)) = some timed_out
public_failure (some (failed _)) = some delivery_failed
