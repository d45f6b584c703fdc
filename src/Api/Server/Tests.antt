-- ===== src/Api/Server/Tests.antt =====
-- The two handlers that try things out: handleTestSafety of internal/api/safety.go and
-- handleTestNotification of internal/api/notify.go.
use lap_guard.Base.{
  ltb, Bool, true, false, not, Option, none, some, [], Text, codes, text_eq, trim_space, to_lower,
  len_bytes, Result, ok, err, if◌then◌else◌,
}
use lap_guard.Config.{provider_configured}
use lap_guard.Safety.Controller.{Controller, Event, simulate_text}
use lap_guard.Notify.{test_event}
use lap_guard.Notify.Retry.{canceled, deadline_exceeded}
use lap_guard.Notify.Service.{
  is_disabled, no_provider, unsupported_event, limited_rate, delivery_failed, PublicText,
  public_failure, normalize_event, NotificationEvent, ServiceError, failed, send,
}
use lap_guard.Api.Body.{decode_object_bytes, max_config_body}
use lap_guard.Api.Server.{contains, ℕ, Server, World, Served, replied, malformed_json}

-- The scenario that a body asks for; an empty body and a blank name ask for the warning.
abbrev named_scenario : Text → Text
named_scenario name =
    if text_eq (trim_space name) [] then codes "warning" else to_lower (trim_space name)

abbrev named_by : Option Text → Option Text
named_by none = none
named_by (some name) = some (named_scenario name)

abbrev scenario_in : (Text → Option Text) → Text → Option Text
scenario_in json trimmed =
    if text_eq trimmed []
    then some (codes "warning")
    else named_by (decode_object_bytes json trimmed)

unfoldable pub scenario_of_body : (Text → Option Text) → Option Text → Option Text
scenario_of_body json none = none
scenario_of_body json (some raw) =
    if ltb max_config_body (len_bytes raw) then none else scenario_in json (trim_space raw)

abbrev pub simulated : Server → Controller × Result (Unit {0}) (Option Event) → Served
simulated s (c, ok event) = replied (record s { safety = c }) 200 []
simulated s (c, err problem) = replied (record s { safety = c }) 400 (codes "unknown scenario")

abbrev pub with_scenario : World → Server → Option Text → Served
with_scenario w s none = replied s 400 malformed_json
with_scenario w s (some scenario) = simulated s (simulate_text s.cfg w.clock scenario s.safety)

unfoldable pub handle_test_safety : World → Option Text → Server → Served
unfolding scenario_of_body
handle_test_safety w body s = with_scenario w s (scenario_of_body w.json.scenario body)

-- `TestEvent`
abbrev test_notification : ℕ → NotificationEvent
test_notification clock =
    normalize_event clock (record { kind = test_event; title = []; message = []; timestamp = 0 })

is_timeout : ServiceError → Bool
is_timeout (failed canceled) = true
is_timeout (failed deadline_exceeded) = true
is_timeout _ = false

-- The text of a public failure.
abbrev public_text : Option PublicText → Text
public_text none = []
public_text (some is_disabled) = codes "notifications are disabled"
public_text (some no_provider) = codes "no notification provider configured"
public_text (some unsupported_event) = codes "unsupported notification event"
public_text (some limited_rate) = codes "notification rate limited"
public_text (some PublicText.timed_out) = codes "delivery timed out"
public_text (some delivery_failed) = codes "delivery failed"

-- The reply to what `Send` returned. None of the texts holds a URL.
unfoldable pub notification_reply : Server → Option ServiceError → Served
unfolding is_timeout
notification_reply s none = replied s 200 []
notification_reply s (some e) =
    let text = public_text (public_failure (some e)) in
    replied s (if is_timeout e then 504 else 502)
      (if contains text (codes "://") then codes "delivery failed" else text)

unfoldable pub handle_test_notification : World → Server → Served
unfolding notification_reply
handle_test_notification w s =
    let n = s.cfg.notifications in
    if not n.enabled
    then replied s 400 (codes "notifications are disabled")
    else if not (provider_configured w.valid_url n)
    then replied s 400 (codes "no notification provider configured")
    else notification_reply s
        (send w.valid_url w.delivery n w.clock w.clock (test_notification w.clock) w.limiter).1
