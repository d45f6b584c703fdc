-- ===== src/Api/Server/Examples.antt =====
-- Requests at concrete servers.
use lap_guard.Base.{
  ◌≡◌, ◌⊎◌, refl, true, false, none, some, List, [], ◌∷◌, codes, text_eq, trim_space, to_lower,
  arith, pos,
}
use lap_guard.Config.{defaults}
use lap_guard.Config.Normalize.Bounds.{IsValid}
use lap_guard.Config.Settings.{Disk, SettingsRequest}
use lap_guard.Power.{battery}
use lap_guard.Safety.Executor.{host}
use lap_guard.Safety.AutoDrain.{Deps}
use lap_guard.Notify.Limiter.{new_limiter}
use lap_guard.Api.Guard.{new_guard}
use lap_guard.Api.Protect.{
  Parsers, origin_allowed, require_json, require_auth, bearer_token, is_loopback, secure_write,
}
use lap_guard.Api.Body.{decode_object}
use lap_guard.Api.Server.{Server, Decoders, World, handle_put_config}
use lap_guard.Api.Server.Router.{
  Machine, Request, Route, reading, writing, put_config, action_power_off, healthz, serve,
  serve_all,
}
use lap_guard.Api.Server.Router.Laws.{IsUntouched, IsAuthorised, serve_guarded}
use lap_guard.Api.Server.Router.Settings.{serve_all-IsValid}

abbrev disk : Disk
disk = record { default_path = some (codes "/home/u/config.json"); save_ok = λ _. true }

-- Lowers the warning threshold to five percent, below the critical one.
abbrev low_warning : SettingsRequest
low_warning = record {
  notifications = none;
  shutdown =
      some (record { enabled = none; warning_threshold = some (pos 5); critical_threshold = none });
  docker = none;
  safety = none;
  actions = none;
  auto_drain = none;
}

abbrev decoders : Decoders
decoders = record {
  settings = λ s. some low_warning;
  notifications = λ s. none;
  shutdown = λ s. none;
  auto_drain = λ s. none;
  action = λ s. some (codes "yes");
  scenario = λ s. some (codes "warning");
  confirm = λ s. some (codes "POWER_OFF");
}

abbrev world : World
world = record {
  json = decoders;
  valid_url = λ _. true;
  disk = disk;
  clock = 1;
  deps = record { has_notifier = true; executor = none; live = none; valid_url = λ _. true };
  limiter = new_limiter (pos 0);
  delivery = λ e. none;
}

abbrev parsers : Parsers
parsers = record {
  url_host = λ u. none;
  media_type = λ h. some h;
  host_of = λ t. some (codes "127.0.0.1");
  loopback_ip = λ t. text_eq t (codes "127.0.0.1");
}

abbrev machine : Machine
machine = record {
  world = world;
  parsers = parsers;
  hash = λ t. t;
  source = battery;
  battery = record { status = codes "Discharging"; percent = some (pos 40); discharging = true };
  actors = record { test_actor = none; rec = none; real = host true true true };
}

abbrev local : Request
local = record {
  parts = record {
    origin = [];
    host = codes "127.0.0.1:8585";
    content_type = codes "application/json";
    query_token = false;
    authorization = [];
    remote = codes "127.0.0.1:50000";
  };
  body = some (codes "{}");
  key = [];
}

abbrev started : Server
started = record {
  cfg = defaults;
  drain = lap_guard.Safety.AutoDrain.new;
  safety = lap_guard.Safety.Controller.new;
  guard = new_guard;
}

abbrev plain_text : Request
plain_text = record local { parts = record local.parts { content_type = codes "text/plain" } }

refused_type : (serve machine (writing put_config) plain_text started).reply.status ≡ 415
unfolding serve secure_write origin_allowed require_json text_eq trim_space to_lower
refused_type = refl

malformed :
    (serve machine (writing put_config) (record local { body = none }) started).reply.status ≡ 400
unfolding serve secure_write origin_allowed require_json require_auth bearer_token is_loopback
    text_eq trim_space to_lower decode_object handle_put_config
malformed = refl

serve_guarded_example :
    IsUntouched started (serve machine (writing action_power_off) local started)
    ⊎ IsAuthorised machine defaults.auth local
serve_guarded_example = serve_guarded machine (writing action_power_off) local started refl

defaults-IsValid : IsValid defaults
defaults-IsValid = ground arith

abbrev requests : List (Machine × Route × Request)
requests =
    (machine, writing put_config, local)
    ∷ (machine, writing action_power_off, local)
    ∷ (machine, reading healthz, local)
    ∷ []

serve_all-IsValid_example : IsValid (serve_all requests started).0.cfg
serve_all-IsValid_example = serve_all-IsValid requests started defaults-IsValid
