-- ===== src/Notify/Service/Laws.antt =====
-- When an event goes out, and which of two successes is a silent one.
use lap_guard.Base.{ℕ, ◌≡◌, ◌↔◌, ◌⊎◌, Bool, true, false, Option, none, some, Text, arith}
use lap_guard.Config.{NotificationsConfig, provider_configured}
use lap_guard.Notify.Limiter.{Limiter, allow}
use lap_guard.Notify.Retry.{SendError}
use lap_guard.Notify.Service.{
  NotificationEvent, name, allowed_event, normalize_event, is_unlimited, send, nothing, deliveries,
  disabled, not_configured, unsupported,
}

-- `Send` tries to deliver exactly where notifications are enabled and configured, the event is one
-- of the known ones, the limiter lets it through or does not count it, and it is no dry run.
pub send_delivers :
    (valid_url : Text → Bool) (outcome : NotificationEvent → Option SendError)
    (cfg : NotificationsConfig) (clock now : ℕ) (e : NotificationEvent) (l : Limiter)
    → ((send valid_url outcome cfg clock now e l).2 ≡ deliveries (normalize_event clock e)) ↔ (
        (cfg.enabled ≡ true)
        × (provider_configured valid_url cfg ≡ true)
        × (allowed_event e.kind ≡ true)
        × ((is_unlimited e.kind ≡ true) ⊎ ((allow now (name e.kind) l).1 ≡ true))
        × (cfg.dry_run ≡ false))
unfolding send normalize_event
send_delivers valid_url outcome cfg clock now e l = (λ h. ground arith, λ h. ground arith)

-- `Send` returns no error exactly where the event was delivered, or where it would have been tried
-- but for the dry run. Where notifications are off or not configured, or the event is unknown, it
-- tries nothing and leaves the limiter as it was.
pub send_ok :
    (valid_url : Text → Bool) (outcome : NotificationEvent → Option SendError)
    (cfg : NotificationsConfig) (clock now : ℕ) (e : NotificationEvent) (l : Limiter)
    → let r = send valid_url outcome cfg clock now e l in
      (r.1 ≡ none
        → ((r.2 ≡ nothing) × (cfg.dry_run ≡ true))
          ⊎ ((r.2 ≡ deliveries (normalize_event clock e))
              × (outcome (normalize_event clock e) ≡ none)))
      × ((r.1 ≡ some disabled) ⊎ (r.1 ≡ some not_configured) ⊎ (r.1 ≡ some unsupported)
          → (r.0 ≡ l) × (r.2 ≡ nothing))
unfolding send
send_ok valid_url outcome cfg clock now e l = (λ h. ground arith, λ h. ground arith)
