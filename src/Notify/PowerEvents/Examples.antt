-- ===== src/Notify/PowerEvents/Examples.antt =====
-- The texts of durations and of errors.
use lap_guard.Base.{◌≡◌, refl, some, codes, contains, has_prefix, to_lower}
use lap_guard.Notify.Retry.{status}
use lap_guard.Notify.PowerEvents.{Printer, format_duration_ms, sanitize_error}

abbrev printer : Printer
printer = record { decimal = λ n. codes "60"; duration = λ n. codes "1m0s" }

-- Half a second below the minute rounds up to sixty seconds.
sixty_seconds : format_duration_ms printer 59500 ≡ codes "60 seconds"
unfolding format_duration_ms
sixty_seconds = refl

url_hidden :
    sanitize_error (λ e. codes "Post https://ntfy.sh/x: EOF") (some (status 500))
    ≡ codes "delivery failed"
unfolding sanitize_error contains has_prefix to_lower
url_hidden = refl
