-- ===== src/Api/Server/Router/Settings.antt =====
-- The settings that the server holds, whatever requests come.
use lap_guard.Base.{
  ap, arith, Bool, true, false, not, if◌then◌else◌, ◌≡◌, refl, Option, none, some, List, [], ◌∷◌,
  Text, Result, ok, err,
}
use mathlib.Core.Path.{subst, sym}
use lap_guard.Config.{Config, provider_configured}
use lap_guard.Notify.Service.{ServiceError}
use lap_guard.Config.Normalize.{Checked}
use lap_guard.Config.Normalize.Bounds.{IsValid}
use lap_guard.Config.Settings.{UpdateError, AutoDrainPatch, apply_request, update_settings}
use lap_guard.Config.Settings.Laws.{update_settings-IsValid}
use lap_guard.Safety.Executor.{Effect}
use lap_guard.Safety.Controller.{Controller, Event, simulate_text}
use lap_guard.Safety.AutoDrain.{AutoDrain}
use lap_guard.Safety.AutoDrain.Handlers.{RespondError, invalid_action, no_pending}
use lap_guard.Safety.AutoDrain.Calls.{respond}
use lap_guard.Config.Auth.{disable_auth}
use lap_guard.Api.Body.{decode_object}
use lap_guard.Api.Protect.{
  Passage, handled, forbidden, unsupported_media, unauthorized, secure_write, secure_auth_admin,
}
use lap_guard.Api.Server.{
  Server, World, Served, settings_error, settle_update, settle_drain_update, update_with,
  update_drain_with, by_body, set_notifications, set_shutdown, reset_if_off, answered,
  set_auto_drain, handle_put_config, handle_post_notifications, handle_post_shutdown,
  handle_put_auto_drain_config, handle_auto_drain_respond, handle_auth_disable, handle_auth_rotate,
}
use lap_guard.Api.Server.Tests.{
  simulated, with_scenario, scenario_of_body, handle_test_safety, handle_test_notification,
  notification_reply,
}
use lap_guard.Api.Server.Router.{
  Machine, Route, Request, Writing, Admin, reading, writing, admin, passed, serve, serve_all,
  handle_writing, handle_admin, handle_action, put_config, post_notifications, post_shutdown,
  test_notification, action_preview, action_power_off, action_docker_drain, test_safety,
  put_auto_drain, auto_drain_respond, auth_rotate, auth_disable,
}

abbrev HoldsValid : Served → Type 0
HoldsValid served = IsValid served.server.cfg

settle_update-cfg :
    (s : Server) (u : Config × Result UpdateError Config) → (settle_update s u).server.cfg ≡ u.0
unfolding settings_error
settle_update-cfg s (held, ok next) = refl
settle_update-cfg s (held, err e) = refl

reset_if_off-cfg : (s : Server) → (reset_if_off s).cfg ≡ s.cfg
reset_if_off-cfg s = ground arith

settle_drain_update-cfg :
    (s : Server) (u : Config × Result UpdateError Config)
    → (settle_drain_update s u).server.cfg ≡ u.0
unfolding settings_error
settle_drain_update-cfg s (held, ok next) = reset_if_off-cfg (record s { cfg = held })
settle_drain_update-cfg s (held, err e) = refl

update_with-HoldsValid :
    (w : World) (mutate : Config → Checked Config) (s : Server)
    → IsValid s.cfg
    → HoldsValid (update_with w mutate s)
unfolding update_with
update_with-HoldsValid w mutate s v =
    subst IsValid (sym (settle_update-cfg s (update_settings w.valid_url w.disk mutate s.cfg)))
      (update_settings-IsValid w.valid_url w.disk mutate s.cfg v)

update_drain_with-HoldsValid :
    (w : World) (p : AutoDrainPatch) (s : Server)
    → IsValid s.cfg
    → HoldsValid (update_drain_with w p s)
unfolding update_drain_with
update_drain_with-HoldsValid w p s v =
    let update = update_settings w.valid_url w.disk (set_auto_drain p) s.cfg in
    subst IsValid (sym (settle_drain_update-cfg s update))
      (update_settings-IsValid w.valid_url w.disk (set_auto_drain p) s.cfg v)

by_body-HoldsValid {ℓ} :
    {A : Type ℓ} (change : A → Server → Served) (s : Server) (body : Option A)
    → IsValid s.cfg
    → ((a : A) → HoldsValid (change a s))
    → HoldsValid (by_body change s body)
by_body-HoldsValid change s none v step = v
by_body-HoldsValid change s (some a) v step = step a

answered-HoldsValid :
    (s : Server) (r : AutoDrain × Result RespondError (List Effect))
    → IsValid s.cfg
    → HoldsValid (answered s r)
answered-HoldsValid s (a, ok effects) v = v
answered-HoldsValid s (a, err no_pending) v = v
answered-HoldsValid s (a, err invalid_action) v = v

simulated-HoldsValid :
    (s : Server) (r : Controller × Result (Unit {0}) (Option Event))
    → IsValid s.cfg
    → HoldsValid (simulated s r)
simulated-HoldsValid s (c, ok event) v = v
simulated-HoldsValid s (c, err problem) v = v

with_scenario-HoldsValid :
    (w : World) (s : Server) (scenario : Option Text)
    → IsValid s.cfg
    → HoldsValid (with_scenario w s scenario)
with_scenario-HoldsValid w s none v = v
with_scenario-HoldsValid w s (some t) v =
    simulated-HoldsValid s (simulate_text s.cfg w.clock t s.safety) v

notification_reply-server :
    (s : Server) (e : Option ServiceError) → (notification_reply s e).server ≡ s
unfolding notification_reply
notification_reply-server s none = refl
notification_reply-server s (some e) = refl

if-holds {ℓ κ} :
    {A : Type ℓ} (P : A → Type κ) (b : Bool) {x y : A} → P x → P y → P (if b then x else y)
if-holds P true px py = px
if-holds P false px py = py

test_notification-server : (w : World) (s : Server) → (handle_test_notification w s).server ≡ s
unfolding handle_test_notification
test_notification-server w s =
    if-holds (λ (served : Served). served.server ≡ s) (not s.cfg.notifications.enabled) refl
      (if-holds (λ (served : Served). served.server ≡ s)
        (not (provider_configured w.valid_url s.cfg.notifications)) refl
        (notification_reply-server s _))

test_notification-HoldsValid :
    (w : World) (s : Server) → IsValid s.cfg → HoldsValid (handle_test_notification w s)
test_notification-HoldsValid w s v =
    subst IsValid (sym (ap (λ t. t.cfg) (test_notification-server w s))) v

put_config-HoldsValid :
    (w : World) (body : Option Text) (s : Server)
    → IsValid s.cfg
    → HoldsValid (handle_put_config w body s)
unfolding handle_put_config
put_config-HoldsValid w body s v =
    by_body-HoldsValid (λ a. update_with w (apply_request w.valid_url a)) s
      (decode_object w.json.settings body) v
      λ a. update_with-HoldsValid w (apply_request w.valid_url a) s v

post_notifications-HoldsValid :
    (w : World) (body : Option Text) (s : Server)
    → IsValid s.cfg
    → HoldsValid (handle_post_notifications w body s)
unfolding handle_post_notifications
post_notifications-HoldsValid w body s v =
    by_body-HoldsValid (λ a. update_with w (set_notifications w.valid_url a)) s
      (decode_object w.json.notifications body) v
      λ a. update_with-HoldsValid w (set_notifications w.valid_url a) s v

post_shutdown-HoldsValid :
    (w : World) (body : Option Text) (s : Server)
    → IsValid s.cfg
    → HoldsValid (handle_post_shutdown w body s)
unfolding handle_post_shutdown
post_shutdown-HoldsValid w body s v =
    by_body-HoldsValid (λ a. update_with w (set_shutdown a)) s (decode_object w.json.shutdown body)
      v λ a. update_with-HoldsValid w (set_shutdown a) s v

put_auto_drain_config-HoldsValid :
    (w : World) (body : Option Text) (s : Server)
    → IsValid s.cfg
    → HoldsValid (handle_put_auto_drain_config w body s)
unfolding handle_put_auto_drain_config
put_auto_drain_config-HoldsValid w body s v =
    by_body-HoldsValid (update_drain_with w) s (decode_object w.json.auto_drain body) v
      λ a. update_drain_with-HoldsValid w a s v

auto_drain_respond-HoldsValid :
    (w : World) (body : Option Text) (s : Server)
    → IsValid s.cfg
    → HoldsValid (handle_auto_drain_respond w body s)
unfolding handle_auto_drain_respond
auto_drain_respond-HoldsValid w body s v =
    by_body-HoldsValid (λ action t. answered t (respond w.deps t.cfg w.clock action t.drain)) s
      (decode_object w.json.action body) v
      λ action. answered-HoldsValid s (respond w.deps s.cfg w.clock action s.drain) v

test_safety-HoldsValid :
    (w : World) (body : Option Text) (s : Server)
    → IsValid s.cfg
    → HoldsValid (handle_test_safety w body s)
unfolding handle_test_safety
test_safety-HoldsValid w body s v =
    with_scenario-HoldsValid w s (scenario_of_body w.json.scenario body) v

handle_writing-HoldsValid :
    (m : Machine) (w : Writing) (r : Request) (s : Server)
    → IsValid s.cfg
    → HoldsValid (handle_writing m w r s)
unfolding handle_writing handle_action
handle_writing-HoldsValid m put_config r s v = put_config-HoldsValid m.world r.body s v
handle_writing-HoldsValid m post_notifications r s v =
    post_notifications-HoldsValid m.world r.body s v
handle_writing-HoldsValid m post_shutdown r s v = post_shutdown-HoldsValid m.world r.body s v
handle_writing-HoldsValid m test_notification r s v = test_notification-HoldsValid m.world s v
handle_writing-HoldsValid m action_preview r s v = v
handle_writing-HoldsValid m action_power_off r s v = v
handle_writing-HoldsValid m action_docker_drain r s v = v
handle_writing-HoldsValid m test_safety r s v = test_safety-HoldsValid m.world r.body s v
handle_writing-HoldsValid m put_auto_drain r s v =
    put_auto_drain_config-HoldsValid m.world r.body s v
handle_writing-HoldsValid m auto_drain_respond r s v =
    auto_drain_respond-HoldsValid m.world r.body s v

handle_admin-HoldsValid :
    (m : Machine) (a : Admin) (s : Server) → IsValid s.cfg → HoldsValid (handle_admin m a s)
unfolding handle_admin handle_auth_disable handle_auth_rotate
handle_admin-HoldsValid m auth_rotate s v = v
handle_admin-HoldsValid m auth_disable s v =
    update_with-HoldsValid m.world (λ c. ok (record c { auth = disable_auth c.auth })) s v

passed-HoldsValid :
    (p : Passage) (s : Server) (served : Served)
    → IsValid s.cfg
    → HoldsValid served
    → HoldsValid (passed p s served)
passed-HoldsValid handled s served v done = done
passed-HoldsValid forbidden s served v done = v
passed-HoldsValid unsupported_media s served v done = v
passed-HoldsValid unauthorized s served v done = v

serve-HoldsValid :
    (m : Machine) (route : Route) (r : Request) (s : Server)
    → IsValid s.cfg
    → HoldsValid (serve m route r s)
unfolding serve
serve-HoldsValid m (reading view) r s v = v
serve-HoldsValid m (writing w) r s v =
    passed-HoldsValid (secure_write m.parsers m.hash s.cfg.auth r.parts) s _ v
      (handle_writing-HoldsValid m w r s v)
serve-HoldsValid m (admin a) r s v =
    passed-HoldsValid (secure_auth_admin m.parsers m.hash s.cfg.auth r.parts) s _ v
      (handle_admin-HoldsValid m a s v)

-- However many requests come, on whatever routes and with whatever bodies, and whatever the disk
-- and the machine do: a server that started with settings in range never holds others.
pub serve_all-IsValid :
    (requests : List (Machine × Route × Request)) (s : Server)
    → IsValid s.cfg
    → IsValid (serve_all requests s).0.cfg
unfolding serve_all
serve_all-IsValid [] s v = v
serve_all-IsValid ((m, route, r) ∷ rest) s v =
    serve_all-IsValid rest (serve m route r s).server (serve-HoldsValid m route r s v)
