-- ===== src/Safety/Executor.antt =====
-- Executors of a plan: the interface ActionExecutor of internal/safety/types.go, the recorder of
-- executor.go, and the sequence drainSyncPowerOff that auto_drain.go and internal/actions share.
use lap_guard.Base.{Bool, true, false, List, [], ◌∷◌, ◌++◌, Option, none, some}
use lap_guard.Config.{Action, stop_docker, sync, power_off}

-- A recorder only appends names. A host executor runs commands: what each of its three methods
-- comes to is the machine's answer, `true` for success.
pub data Executor : Type 0 where
  recorder : Executor
  host : Bool → Bool → Bool → Executor

pub data ExecError : Type 0 where
  unavailable : ExecError
  failed : Action → ExecError

-- What an executor was made to do: a name recorded, or a command run on the machine.
pub data Effect : Type 0 where
  recorded executed : Action → Effect

abbrev answer : Action → Bool → Option ExecError
answer a true = none
answer a false = some (failed a)

unfoldable pub perform : Executor → Action → Effect × Option ExecError
perform recorder a = (recorded a, none)
perform (host docker synced off) stop_docker = (executed stop_docker, answer stop_docker docker)
perform (host docker synced off) sync = (executed sync, answer sync synced)
perform (host docker synced off) power_off = (executed power_off, answer power_off off)

-- The methods in order, up to the first that fails.
unfoldable pub perform_all : Executor → List Action → List Effect × Option ExecError
unfolding perform
perform_all e [] = ([], none)
perform_all e (a ∷ rest) =
    let (effect, problem) = perform e a in
    let (effects, later) = perform_all e rest in
    elim problem [ none ↦ (effect ∷ effects, later) | some x ↦ (effect ∷ [], some x) ]

abbrev pub full_plan : List Action
full_plan = stop_docker ∷ sync ∷ power_off ∷ []

-- `drainSyncPowerOff`; `none` is a nil executor.
unfoldable pub drain_sync_power_off : Option Executor → List Effect × Option ExecError
unfolding perform_all
drain_sync_power_off none = ([], some unavailable)
drain_sync_power_off (some e) = perform_all e full_plan

-- `RecordingExecutor.calls` after a sequence.
unfoldable pub record_calls : List Action → List Effect → List Action
record_calls calls [] = calls
record_calls calls (recorded a ∷ rest) = record_calls (calls ++ (a ∷ [])) rest
record_calls calls (executed a ∷ rest) = record_calls calls rest
