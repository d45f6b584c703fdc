-- ===== src/Safety/AutoDrain/Examples.antt =====
-- The settings and samples that the tests of the smart drain run on.
use lap_guard.Base.{ℕ, ◌*◌, pos, true, false, some, [], codes}
use lap_guard.Config.{Config, defaults}
use lap_guard.Power.{battery}
use lap_guard.Safety.{Sample}
use lap_guard.Safety.Executor.{recorder, host}
use lap_guard.Safety.AutoDrain.{Deps}

-- Smart drain on at 10 percent, over ntfy, with real actions ready.
abbrev pub armed : Config
armed = record defaults {
  notifications = record {
    provider = codes "ntfy";
    enabled = true;
    dry_run = false;
    webhook_url = codes "https://ntfy.sh/x";
    chat_id = [];
  };
  docker = record defaults.docker { stop_enabled = true };
  safety = record defaults.safety { dry_run = false };
  auto_drain = record defaults.auto_drain { enabled = true };
  actions = record defaults.actions { real_enabled = true };
}

abbrev pub deps : Deps
deps = record {
  has_notifier = true;
  executor = some recorder;
  live = some (some (host true true true));
  valid_url = λ _. true;
}

-- 8 percent, on battery.
abbrev pub at_time : ℕ → Sample
at_time t = record {
  now = t;
  present = true;
  percent = some (pos 8);
  status = codes "Discharging";
  discharging = true;
  source = battery;
  force = false;
}

abbrev pub minute : ℕ
minute = 60 * 1_000_000_000
