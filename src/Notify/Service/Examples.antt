-- ===== src/Notify/Service/Examples.antt =====
-- A warning sent to an ntfy topic.
use lap_guard.Base.{Bool, ◌≡◌, ◌↔◌, ◌⊎◌, true, false, none, Option, [], codes, pos, Text}
use lap_guard.Config.{NotificationsConfig, provider_configured}
use lap_guard.Notify.{battery_warning}
use lap_guard.Notify.Limiter.{Limiter, new_limiter, allow}
use lap_guard.Notify.Retry.{SendError}
use lap_guard.Notify.Service.{
  NotificationEvent, name, allowed_event, normalize_event, is_unlimited, send, deliveries,
}
use lap_guard.Notify.Service.Laws.{send_delivers}

abbrev ntfy : NotificationsConfig
ntfy = record {
  provider = codes "ntfy";
  enabled = true;
  dry_run = false;
  webhook_url = codes "https://ntfy.sh/x";
  chat_id = [];
}

abbrev event : NotificationEvent
event = record { kind = battery_warning; title = []; message = []; timestamp = 0 }

abbrev fine : NotificationEvent → Option SendError
fine e = none

abbrev valid : Text → Bool
valid u = true

abbrev limiter : Limiter
limiter = new_limiter (pos 0)

send_delivers_example :
    ((send valid fine ntfy 7 9 event limiter).2 ≡ deliveries (normalize_event 7 event)) ↔ (
      (ntfy.enabled ≡ true)
      × (provider_configured valid ntfy ≡ true)
      × (allowed_event event.kind ≡ true)
      × ((is_unlimited event.kind ≡ true) ⊎ ((allow 9 (name event.kind) limiter).1 ≡ true))
      × (ntfy.dry_run ≡ false))
send_delivers_example = send_delivers valid fine ntfy 7 9 event limiter
