-- ===== src/Api/Server/Router.antt =====
-- Which handler answers which route, and what stands before it: `Handler` of
-- internal/api/handlers.go. Go's router is a parameter: it says which route a request takes.
pub mod Laws
pub mod Settings
use lap_guard.Base.{Bool, Option, none, some, List, [], ◌∷◌, ◌++◌, Text, codes, if◌then◌else◌, ℕ}
use lap_guard.Config.{Config}
use lap_guard.Power.{Source}
use lap_guard.Safety.Executor.{Effect}
use lap_guard.Api.Guard.{Guard}
use lap_guard.Api.Actions.{
  Manual, manual_power_off, manual_stop_docker, BatteryReading, Actors, run_manual_action,
  status_code, done,
}
use lap_guard.Api.Body.{decode_object}
use lap_guard.Api.Protect.{
  Parsers, Passage, handled, forbidden, unsupported_media, unauthorized, secure_write,
  secure_auth_admin,
}
use lap_guard.Api.Server.{
  Server, World, Served, Reply, replied, handle_put_config, handle_post_notifications,
  handle_post_shutdown, handle_put_auto_drain_config, handle_auto_drain_respond,
  handle_auth_disable, handle_auth_rotate,
}
use lap_guard.Api.Server.Tests.{handle_test_safety, handle_test_notification}

-- The routes of the API that answer with a view, and the static files.
pub data Reading : Type 0 where
  telemetry capabilities discover get_config power events get_safety : Reading
  auto_drain_status healthz auth_status action_status action_preflight static_files : Reading

pub data Writing : Type 0 where
  put_config post_notifications post_shutdown test_notification action_preview : Writing
  action_power_off action_docker_drain test_safety put_auto_drain auto_drain_respond : Writing

pub data Admin : Type 0 where
  auth_rotate auth_disable : Admin

pub data Route : Type 0 where
  reading : Reading → Route
  writing : Writing → Route
  admin : Admin → Route

-- A request: what the middleware reads, the body (`none` where it cannot be read) and the
-- idempotency key.
pub record Request : Type 0 where
  pub parts : lap_guard.Api.Protect.Request
  pub body : Option Text
  pub key : Text

-- The machine as a request finds it.
pub record Machine : Type 0 where
  pub world : World
  pub parsers : Parsers
  pub hash : Text → Text
  pub source : Source
  pub battery : BatteryReading
  pub actors : Actors

-- The two actions on the machine; no PUT comes in between.
unfoldable pub handle_action : Machine → Manual → Request → Server → Served
handle_action m action r s =
    let confirm = decode_object m.world.json.confirm r.body in
    let (g, reply, effects) =
      run_manual_action m.hash action s.cfg s.cfg m.source m.battery m.actors m.world.clock
        (record { confirm = confirm; key = r.key }) s.guard in
    record {
      server = record s { guard = g };
      reply = record { status = status_code reply; error = [] };
      effects = effects;
    }

unfoldable pub handle_writing : Machine → Writing → Request → Server → Served
unfolding handle_action
handle_writing m put_config r s = handle_put_config m.world r.body s
handle_writing m post_notifications r s = handle_post_notifications m.world r.body s
handle_writing m post_shutdown r s = handle_post_shutdown m.world r.body s
handle_writing m test_notification r s = handle_test_notification m.world s
handle_writing m action_preview r s = replied s 200 []
handle_writing m action_power_off r s = handle_action m manual_power_off r s
handle_writing m action_docker_drain r s = handle_action m manual_stop_docker r s
handle_writing m test_safety r s = handle_test_safety m.world r.body s
handle_writing m put_auto_drain r s = handle_put_auto_drain_config m.world r.body s
handle_writing m auto_drain_respond r s = handle_auto_drain_respond m.world r.body s

unfoldable pub handle_admin : Machine → Admin → Server → Served
handle_admin m auth_rotate s = handle_auth_rotate s
handle_admin m auth_disable s = handle_auth_disable m.world s

-- The answers of the two wrappers.
abbrev pub passed : Passage → Server → Served → Served
passed handled s served = served
passed forbidden s served = replied s 403 (codes "origin not allowed")
passed unsupported_media s served = replied s 415 (codes "unsupported media type")
passed unauthorized s served = replied s 401 (codes "unauthorized")

-- What the mux and its wrappers make of a request. The views change nothing here.
unfoldable pub serve : Machine → Route → Request → Server → Served
unfolding handle_writing handle_admin
serve m (reading view) r s = replied s 200 []
serve m (writing w) r s =
    passed (secure_write m.parsers m.hash s.cfg.auth r.parts) s (handle_writing m w r s)
serve m (admin a) r s =
    passed (secure_auth_admin m.parsers m.hash s.cfg.auth r.parts) s (handle_admin m a s)

-- Requests one after the other, each with the machine that it meets; the effects are in order.
unfoldable pub serve_all : List (Machine × Route × Request) → Server → Server × List Effect
serve_all [] s = (s, [])
serve_all ((m, route, r) ∷ rest) s =
    let served = serve m route r s in
    let (last, effects) = serve_all rest served.server in (last, served.effects ++ effects)
