-- ===== src/Api/Server.antt =====
-- The server of internal/api: its state, and the handlers that can change it (config.go, auth.go,
-- auto_drain.go, safety.go, notify.go and actions.go), each as a whole request.
pub mod Tests
pub mod Router
mod Examples
use lap_guard.Base.{
  ◌>>=◌, ℕ, ℤ, Bool, true, false, ◌||◌, not, Option, none, some, List, [], ◌∷◌, Text, codes,
  text_eq, trim_space, to_lower, ltb, len_bytes, contains, Result, ok, err, if◌then◌else◌,
}
use lap_guard.Config.{Config, provider_configured}
use lap_guard.Config.Normalize.{ConfigError, Checked, unknown_provider, unknown_threshold_method}
use lap_guard.Config.Settings.{
  SettingsRequest, NotificationsPatch, ShutdownPatch, AutoDrainPatch, UpdateError, invalid,
  no_default_path, save_failed, Disk, Stored, apply_request, apply_notifications, apply_shutdown,
  apply_auto_drain, update_settings,
}
use lap_guard.Config.Auth.{disable_auth}
use lap_guard.Power.{Source}
use lap_guard.Safety.Executor.{Effect}
use lap_guard.Safety.Controller.{Controller, simulate_text}
use lap_guard.Safety.AutoDrain.{AutoDrain, Deps, api_disabled, reset_to_idle}
use lap_guard.Safety.AutoDrain.Handlers.{RespondError, invalid_action, no_pending}
use lap_guard.Safety.AutoDrain.Calls.{respond}
use lap_guard.Notify.{test_event}
use lap_guard.Notify.Limiter.{Limiter}
use lap_guard.Notify.Retry.{SendError}
use lap_guard.Notify.Service.{NotificationEvent, ServiceError, send}
use lap_guard.Api.Guard.{Guard}
use lap_guard.Api.Body.{decode_object, decode_object_bytes, max_config_body}

-- What requests can change.
pub record Server : Type 0 where
  pub cfg : Config
  pub drain : AutoDrain
  pub safety : Controller
  pub guard : Guard

-- The JSON decoders, one for each type that a body is read into.
pub record Decoders : Type 0 where
  pub settings : Text → Option SettingsRequest
  pub notifications : Text → Option NotificationsPatch
  pub shutdown : Text → Option ShutdownPatch
  pub auto_drain : Text → Option AutoDrainPatch
  pub action : Text → Option Text
  pub scenario : Text → Option Text
  pub confirm : Text → Option Text

-- What a request meets outside the server.
pub record World : Type 0 where
  pub json : Decoders
  pub valid_url : Text → Bool
  pub disk : Disk
  pub clock : ℕ
  pub deps : Deps
  pub limiter : Limiter
  pub delivery : NotificationEvent → Option SendError

pub record Reply : Type 0 where
  pub status : ℕ
  pub error : Text

pub record Served : Type 0 where
  pub server : Server
  pub reply : Reply
  pub effects : List Effect

abbrev pub replied : Server → ℕ → Text → Served
replied s status error = record {
  server = s;
  reply = record { status = status; error = error };
  effects = [];
}

abbrev pub malformed_json : Text
malformed_json = codes "malformed JSON"

-- The status and the message of `writeSettingsError` with `writeError`. The two errors that are not
-- marked as an invalid configuration end like a failed write.
unfoldable pub settings_reply : UpdateError → ℕ × Text
settings_reply (invalid unknown_provider) = (500, codes "failed to persist config")
settings_reply (invalid unknown_threshold_method) = (500, codes "failed to persist config")
settings_reply (invalid e) = (400, codes "invalid config")
settings_reply no_default_path = (500, codes "failed to persist config")
settings_reply save_failed = (500, codes "failed to persist config")

unfoldable pub settings_error : Server → UpdateError → Served
unfolding settings_reply
settings_error s e = let (status, message) = settings_reply e in replied s status message

-- The end of a handler that has called `updateSettings`.
abbrev pub settle_update : Server → Config × Result UpdateError Config → Served
settle_update s (held, ok next) = replied (record s { cfg = held }) 200 []
settle_update s (held, err e) = settings_error (record s { cfg = held }) e

unfoldable pub update_with : World → (Config → Checked Config) → Server → Served
unfolding settings_error
update_with w mutate s = settle_update s (update_settings w.valid_url w.disk mutate s.cfg)

-- A handler that changes the settings by what its body says.
abbrev pub by_body {ℓ} : {A : Type ℓ} → (A → Server → Served) → Server → Option A → Served
by_body change s none = replied s 400 malformed_json
by_body change s (some a) = change a s

unfoldable pub handle_put_config : World → Option Text → Server → Served
unfolding update_with
handle_put_config w body s =
    by_body (λ req. update_with w (apply_request w.valid_url req)) s
      (decode_object w.json.settings body)

-- The function that handlePostNotifications hands over.
unfoldable pub set_notifications : (Text → Bool) → NotificationsPatch → Config → Checked Config
set_notifications valid_url p c = do
  next ← apply_notifications valid_url c.notifications p
  ok (record c { notifications = next })

unfoldable pub set_shutdown : ShutdownPatch → Config → Checked Config
set_shutdown p c = do next ← apply_shutdown c.shutdown p; ok (record c { shutdown = next })

unfoldable pub set_auto_drain : AutoDrainPatch → Config → Checked Config
set_auto_drain p c = do next ← apply_auto_drain c.auto_drain p; ok (record c { auto_drain = next })

unfoldable pub handle_post_notifications : World → Option Text → Server → Served
unfolding update_with set_notifications
handle_post_notifications w body s =
    by_body (λ p. update_with w (set_notifications w.valid_url p)) s
      (decode_object w.json.notifications body)

unfoldable pub handle_post_shutdown : World → Option Text → Server → Served
unfolding update_with set_shutdown
handle_post_shutdown w body s =
    by_body (λ p. update_with w (set_shutdown p)) s (decode_object w.json.shutdown body)

-- After an update that went well, a smart drain that is off starts over.
abbrev pub reset_if_off : Server → Server
reset_if_off s =
    if not s.cfg.auto_drain.enabled
    then record s { drain = reset_to_idle api_disabled s.drain }
    else s

abbrev pub settle_drain_update : Server → Config × Result UpdateError Config → Served
settle_drain_update s (held, ok next) = replied (reset_if_off (record s { cfg = held })) 200 []
settle_drain_update s (held, err e) = settings_error (record s { cfg = held }) e

unfoldable pub update_drain_with : World → AutoDrainPatch → Server → Served
unfolding settings_error set_auto_drain
update_drain_with w p s =
    settle_drain_update s (update_settings w.valid_url w.disk (set_auto_drain p) s.cfg)

unfoldable pub handle_put_auto_drain_config : World → Option Text → Server → Served
unfolding update_drain_with
handle_put_auto_drain_config w body s =
    by_body (update_drain_with w) s (decode_object w.json.auto_drain body)

abbrev pub answered : Server → AutoDrain × Result RespondError (List Effect) → Served
answered s (a, ok effects) = record {
  server = record s { drain = a };
  reply = record { status = 200; error = [] };
  effects = effects;
}
answered s (a, err no_pending) =
    replied (record s { drain = a }) 409 (codes "no pending auto-drain prompt")
answered s (a, err invalid_action) =
    replied (record s { drain = a }) 400 (codes "action must be yes or no")

unfoldable pub handle_auto_drain_respond : World → Option Text → Server → Served
handle_auto_drain_respond w body s =
    by_body (λ action s'. answered s' (respond w.deps s'.cfg w.clock action s'.drain)) s
      (decode_object w.json.action body)

-- `handleAuthDisable`
unfoldable pub handle_auth_disable : World → Server → Served
unfolding update_with
handle_auth_disable w s = update_with w (λ c. ok (record c { auth = disable_auth c.auth })) s

-- `handleAuthRotate`: tokens are made on the command line only.
unfoldable pub handle_auth_rotate : Server → Served
handle_auth_rotate s = replied s 400 (codes "use CLI")
