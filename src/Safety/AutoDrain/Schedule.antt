-- ===== src/Safety/AutoDrain/Schedule.antt =====
-- Calls of the smart drain that interleave. Tick and Respond of internal/safety/auto_drain.go give
-- up the mutex while a warning is sent and while a sequence runs; any other call may come between.
mod Invariant
mod Gates
mod Examples
use lap_guard.Base.{
  ℕ, suc, Bool, true, false, Option, none, some, List, [], ◌∷◌, ◌≡◌, Result, ok, err,
}
use lap_guard.Config.{Config}
use lap_guard.Safety.{Sample}
use lap_guard.Safety.Executor.{Executor, Effect, drain_sync_power_off}
use lap_guard.Safety.AutoDrain.{AutoDrain, Deps, Delivery, Reason, Response, new, reset_to_idle}
use lap_guard.Safety.AutoDrain.Handlers.{
  Next, settled, send, execute, begin_tick, sent_ok, end_send, Launch, blocked, launch,
  begin_execute, end_execute, RespondError, begin_respond,
}

-- A call that is under way without the mutex.
pub data Task : Type 0 where
  sending : Config → Sample → Task
  executes : Config → Sample → Response → Task
  draining : Config → Executor → Task

-- A sequence that ran, with the configuration that `execute` had read.
pub record Ran : Type 0 where
  pub config : Config
  pub executor : Executor
  pub effects : List Effect

-- `sent` counts the warnings that came back without an error, and `launches` the sequences begun.
pub record World : Type 0 where
  pub drain : AutoDrain
  pub tasks : List Task
  pub sent : ℕ
  pub launches : ℕ
  pub log : List Ran

pub start : World
start = record { drain = new; tasks = []; sent = 0; launches = 0; log = [] }

-- `Take t ts rest`: `t` is one of `ts`, and `rest` are the others.
pub data Take (t : Task) : List Task → List Task → Type 0 where
  here : {ts : List Task} → Take t (t ∷ ts) ts
  there : {u : Task} {ts rest : List Task} → Take t ts rest → Take t (u ∷ ts) (u ∷ rest)

abbrev pub spawn : Next → List Task → List Task
spawn settled ts = ts
spawn (send cfg s) ts = sending cfg s ∷ ts
spawn (execute cfg s trigger) ts = executes cfg s trigger ∷ ts

abbrev pub spawn_ok : Result RespondError Next → List Task → List Task
spawn_ok (err e) ts = ts
spawn_ok (ok next) ts = spawn next ts

abbrev pub spawn_launch : Launch → List Task → List Task
spawn_launch blocked ts = ts
spawn_launch (launch cfg e) ts = draining cfg e ∷ ts

abbrev pub count_launch : Launch → ℕ → ℕ
count_launch blocked n = n
count_launch (launch cfg e) n = suc n

abbrev pub count_sent : Bool → ℕ → ℕ
count_sent false n = n
count_sent true n = suc n

abbrev pub ticked : Deps → Config → ℕ → Sample → World → World
ticked d cfg clock s w =
    let r = begin_tick d cfg clock s w.drain in record w { drain = r.0; tasks = spawn r.1 w.tasks }

abbrev pub responded : Config → ℕ → Response → World → World
responded cfg clock answer w =
    let r = begin_respond cfg clock answer w.drain in
    record w { drain = r.0; tasks = spawn_ok r.1 w.tasks }

abbrev pub warned : Config → Sample → Delivery → List Task → World → World
warned cfg s outcome rest w = record w {
  drain = end_send cfg s outcome w.drain;
  tasks = rest;
  sent = count_sent (sent_ok outcome) w.sent;
}

abbrev pub begun : Deps → Config → Sample → Response → List Task → World → World
begun d cfg s trigger rest w =
    let r = begin_execute d cfg s trigger w.drain in
    record w { drain = r.0; tasks = spawn_launch r.1 rest; launches = count_launch r.1 w.launches }

abbrev pub drained : Config → Executor → List Task → World → World
drained cfg e rest w =
    let r = drain_sync_power_off (some e) in
    record w {
      drain = end_execute cfg r.1 w.drain;
      tasks = rest;
      log = record { config = cfg; executor = e; effects = r.0 } ∷ w.log;
    }

-- One stretch under the mutex, with whatever configuration and sample it reads.
pub data Step (d : Deps) : World → World → Type 0 where
  tick : (w : World) (cfg : Config) (clock : ℕ) (s : Sample) → Step d w (ticked d cfg clock s w)
  respond :
      (w : World) (cfg : Config) (clock : ℕ) (answer : Response)
      → Step d w (responded cfg clock answer w)
  reset : (w : World) (r : Reason) → Step d w (record w { drain = reset_to_idle r w.drain })
  warning_back :
      (w : World) (cfg : Config) (s : Sample) (outcome : Delivery) (rest : List Task)
      → Take (sending cfg s) w.tasks rest
      → Step d w (warned cfg s outcome rest w)
  begin_sequence :
      (w : World) (cfg : Config) (s : Sample) (trigger : Response) (rest : List Task)
      → Take (executes cfg s trigger) w.tasks rest
      → Step d w (begun d cfg s trigger rest w)
  sequence_back :
      (w : World) (cfg : Config) (e : Executor) (rest : List Task)
      → Take (draining cfg e) w.tasks rest
      → Step d w (drained cfg e rest w)

-- The worlds that any interleaving leads to.
pub data Reach (d : Deps) : World → Type 0 where
  begin : Reach d start
  next : {u v : World} → Reach d u → Step d u v → Reach d v
