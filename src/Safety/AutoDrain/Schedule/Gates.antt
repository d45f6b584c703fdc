-- ===== src/Safety/AutoDrain/Schedule/Gates.antt =====
-- Which settings stand behind every sequence of the smart drain, whatever calls interleave.
use lap_guard.Base.{◌≡◌, ◌⊎◌, true, some, List, [], ◌∷◌, arith, All, Result, ok, err}
use lap_guard.Config.{Config, stop_docker, sync, power_off, manual_actions_ready}
use lap_guard.Safety.{Sample}
use lap_guard.Safety.Executor.{Executor, recorder, recorded, Effect, drain_sync_power_off}
use lap_guard.Safety.AutoDrain.{
  AutoDrain, Deps, Response, or_recorder, pick_executor, execute_block_reason,
}
use lap_guard.Safety.AutoDrain.Handlers.{
  begin_tick, begin_execute, begin_respond, Next, settled, send, execute, RespondError,
}
use lap_guard.Safety.AutoDrain.Schedule.{
  Task, sending, executes, draining, World, Ran, start, Take, here, there, Step, tick, respond,
  reset, warning_back, begin_sequence, sequence_back, Reach, begin, next, spawn, spawn_ok,
  spawn_launch,
}

-- The program installs a recorder, so that only the settings can make the executor a real one.
abbrev pub Recording : Deps → Type 0
Recording d = or_recorder d.executor ≡ recorder

abbrev pub recorded_plan : List Effect
recorded_plan = recorded stop_docker ∷ recorded sync ∷ recorded power_off ∷ []

abbrev Allowed : Config → Executor → Type 0
Allowed cfg e =
    (cfg.auto_drain.enabled ≡ true)
    × (cfg.docker.stop_enabled ≡ true)
    × ((manual_actions_ready cfg ≡ true) ⊎ (e ≡ recorder))

abbrev TaskAllowed : Task → Type 0
TaskAllowed (draining cfg e) = Allowed cfg e
TaskAllowed (sending cfg s) = Unit
TaskAllowed (executes cfg s trigger) = Unit

-- A sequence ran with the smart drain and Docker stops enabled, and ran commands only if real
-- actions are enabled and the dry run is off; otherwise it recorded the plan.
abbrev pub RanGated : Ran → Type 0
RanGated r =
    (r.config.auto_drain.enabled ≡ true)
    × (r.config.docker.stop_enabled ≡ true)
    × ((manual_actions_ready r.config ≡ true) ⊎ (r.effects ≡ recorded_plan))

record Inv (w : World) : Type 0 where
  tasks : All TaskAllowed w.tasks
  log : All RanGated w.log

Take-All :
    {t : Task} {ts rest : List Task}
    → Take t ts rest
    → All TaskAllowed ts
    → TaskAllowed t × All TaskAllowed rest
Take-All here (h, hs) = (h, hs)
Take-All (there k) (h, hs) = let (p, ps) = Take-All k hs in (p, (h, ps))

spawn-All : (n : Next) (ts : List Task) → All TaskAllowed ts → All TaskAllowed (spawn n ts)
spawn-All settled ts h = h
spawn-All (send cfg s) ts h = (tt, h)
spawn-All (execute cfg s r) ts h = (tt, h)

spawn_ok-All :
    (n : Result RespondError Next) (ts : List Task)
    → All TaskAllowed ts
    → All TaskAllowed (spawn_ok n ts)
spawn_ok-All (ok n) ts h = spawn-All n ts h
spawn_ok-All (err e) ts h = h

pick-recorder :
    (d : Deps) (cfg : Config)
    → Recording d
    → (manual_actions_ready cfg ≡ true) ⊎ (pick_executor d cfg ≡ recorder)
unfolding pick_executor
pick-recorder d cfg r = ground arith

launch-All :
    (d : Deps) (cfg : Config) (s : Sample) (trigger : Response) (a : AutoDrain) (ts : List Task)
    → Recording d
    → All TaskAllowed ts
    → All TaskAllowed (spawn_launch (begin_execute d cfg s trigger a).1 ts)
unfolding begin_execute execute_block_reason
launch-All d cfg s trigger a ts r h = ground (arith, pick-recorder d cfg r)

drained-gated :
    (cfg : Config) (e : Executor)
    → Allowed cfg e
    → RanGated (record { config = cfg; executor = e; effects = (drain_sync_power_off (some e)).0 })
unfolding drain_sync_power_off
drained-gated cfg e h = ground arith

Step-Inv : {d : Deps} {u v : World} → Recording d → Step d u v → Inv u → Inv v
Step-Inv {d} g (tick w cfg clock s) i = record {
  tasks = spawn-All (begin_tick d cfg clock s w.drain).1 w.tasks i.tasks;
  log = i.log;
}
Step-Inv g (respond w cfg clock answer) i = record {
  tasks = spawn_ok-All (begin_respond cfg clock answer w.drain).1 w.tasks i.tasks;
  log = i.log;
}
Step-Inv g (reset w r) i = record { tasks = i.tasks; log = i.log }
Step-Inv g (warning_back w cfg s outcome rest k) i = record {
  tasks = (Take-All k i.tasks).1;
  log = i.log;
}
Step-Inv {d} g (begin_sequence w cfg s trigger rest k) i = record {
  tasks = launch-All d cfg s trigger w.drain rest g (Take-All k i.tasks).1;
  log = i.log;
}
Step-Inv g (sequence_back w cfg e rest k) i =
    let (h, hs) = Take-All k i.tasks in record { tasks = hs; log = (drained-gated cfg e h, i.log) }

start-Inv : Inv start
unfolding start
start-Inv = record { tasks = tt; log = tt }

Reach-Inv : {d : Deps} {w : World} → Recording d → Reach d w → Inv w
Reach-Inv g begin = start-Inv
Reach-Inv g (next r s) = Step-Inv g s (Reach-Inv g r)

-- Where the executor that the program installs only records: whatever calls interleave, and whatever
-- the settings are at each of them, every sequence that ran had the smart drain and Docker stops enabled, and it only recorded the plan unless the settings
-- that it had read enable real actions and switch the dry run off.
pub commands_gated : {d : Deps} {w : World} → Recording d → Reach d w → All RanGated w.log
commands_gated g r = (Reach-Inv g r).log
