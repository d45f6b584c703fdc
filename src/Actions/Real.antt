-- ===== src/Actions/Real.antt =====
-- `RealExecutor` of internal/actions/exec.go and real.go, and the sequence of sequence.go. An
-- operation yields the commands that it ran, in order, and its result.
mod Commands
mod Refinement
mod Examples
use lap_guard.Base.{
  ℕ, ◌*◌, ℤ, pos, leb_ℤ, Bool, true, false, ◌&&◌, ◌||◌, not, Option, none, some, List, [], ◌∷◌,
  ◌++◌, Text, codes, text_eq, Result, ok, err, if◌then◌else◌,
}
use lap_guard.Config.Normalize.{is_abs}
use lap_guard.Safety.{second}
use lap_guard.Actions.Argv.{
  docker, systemctl, poweroff, sync_name, ps_args, stop_args, validate_argv, parse_container_ids,
  base_name,
}

-- `canceled` and `deadline_exceeded` are a context's; `other` is any error of a command.
pub data CommandError : Type 0 where
  refused_in_test unsafe_args unavailable deadline_exceeded canceled other : CommandError

-- A command as it is handed to the runner, with the time it is given in nanoseconds.
pub record Command : Type 0 where
  pub name : Text
  pub args : List Text
  pub timeout : ℤ

-- What the executor meets. `look` is LookPath, `run` the runner, `over` the context's error, and
-- `left` the time until its deadline, if it has one; all but `look` may depend on what ran before.
pub record Machine : Type 0 where
  pub look : Text → Option Text
  pub run : List Command → Command → Result CommandError Text
  pub over : List Command → Option CommandError
  pub left : List Command → Option ℤ

pub record RealExecutor : Type 0 where
  pub docker_path : Text
  pub power_off_path : Text
  pub sync_path : Text
  pub docker_timeout : ℤ
  pub power_off_timeout : ℤ
  pub sync_timeout : ℤ

abbrev pub Outcome : Type 0 → Type 0
Outcome A = List Command × Result CommandError A

-- An operation, given the commands that ran before it.
abbrev pub Io : Type 0 → Type 0
Io A = List Command → Outcome A

-- An error ends an operation; what ran before it stays run.
abbrev pub and_then : {A B : Type 0} → List Command → Outcome A → (A → Io B) → Outcome B
and_then h (ran, err e) f = (ran, err e)
and_then h (ran, ok a) f = let (more, r) = f a (h ++ ran) in (ran ++ more, r)

infixl 5 ◌>>=◌ ◌>>◌
abbrev pub ◌>>=◌ : {A B : Type 0} → Io A → (A → Io B) → Io B
◌>>=◌ m f h = and_then h (m h) f

abbrev pub ◌>>◌ : {B : Type 0} → Io (Unit {0}) → Io B → Io B
m >> k = m >>= λ _. k

abbrev pub from_result : {A : Type 0} → Result CommandError A → Io A
from_result r h = ([], r)

abbrev pub default_timeout : ℤ → ℤ → ℤ
default_timeout d t = if leb_ℤ t (pos 0) then d else t

-- `run`: a command that does not pass is not run.
unfoldable pub run_command : Machine → ℤ → Text → List Text → Io Text
run_command m timeout name args h =
    let c : Command = record {
      name = name;
      args = args;
      timeout = default_timeout (pos (30 * second)) timeout;
    } in
    if validate_argv name args then (c ∷ [], m.run h c) else ([], err unsafe_args)

-- `look`
unfoldable pub look : Machine → Text → Result CommandError Text
look m file = elim (m.look file) [
  | none ↦ err unavailable
  | some path ↦ if is_abs path then ok path else err unavailable
]

abbrev checked : Text → List Text → Result CommandError Text
checked path args = if validate_argv path args then ok path else err unsafe_args

unfoldable pub docker_bin : Machine → RealExecutor → Result CommandError Text
docker_bin m e = if text_eq e.docker_path [] then look m docker else checked e.docker_path ps_args

unfoldable pub sync_bin : Machine → RealExecutor → Result CommandError Text
sync_bin m e = if text_eq e.sync_path [] then look m sync_name else checked e.sync_path []

-- An executable with its arguments.
abbrev Argv : Type 0
Argv = Text × List Text

abbrev with_args : List Text → Result CommandError Text → Result CommandError Argv
with_args args (ok path) = ok (path, args)
with_args args (err e) = err e

abbrev or_else : Result CommandError Argv → Result CommandError Argv → Result CommandError Argv
or_else (ok a) other_way = ok a
or_else (err e) other_way = other_way

abbrev not_found : Result CommandError Argv → Result CommandError Argv
not_found (ok a) = ok a
not_found (err e) = err unavailable

unfoldable pub power_off_argv : Machine → RealExecutor → Result CommandError Argv
power_off_argv m e =
    if text_eq e.power_off_path []
    then not_found
        (or_else (with_args (poweroff ∷ []) (look m systemctl)) (with_args [] (look m poweroff)))
    else if text_eq (base_name e.power_off_path) systemctl
    then with_args (poweroff ∷ []) (checked e.power_off_path (poweroff ∷ []))
    else if text_eq (base_name e.power_off_path) poweroff
    then with_args [] (checked e.power_off_path [])
    else err unsafe_args

-- The errors that `wrapCmdErr` leaves as they are.
abbrev wrapped : CommandError → CommandError
wrapped refused_in_test = refused_in_test
wrapped unavailable = unavailable
wrapped unsafe_args = unsafe_args
wrapped _ = unavailable

abbrev pub wrap {ℓ} : {A : Type ℓ} → Result CommandError A → Result CommandError A
wrap (ok a) = ok a
wrap (err e) = err (wrapped e)

abbrev pub wrap_outcome : {A : Type 0} → Outcome A → Outcome A
wrap_outcome (ran, r) = (ran, wrap r)

abbrev pub discard : Outcome Text → Outcome (Unit {0})
discard (ran, ok out) = (ran, ok tt)
discard (ran, err e) = (ran, err e)

-- One `docker stop` of the loop, unless the context is over.
abbrev time_left : ℤ → Option ℤ → Result CommandError ℤ
time_left timeout none = ok timeout
time_left timeout (some left) = if leb_ℤ left (pos 0) then err deadline_exceeded else ok left

abbrev pub time_for : Machine → ℤ → List Command → Result CommandError ℤ
time_for m timeout h = elim (m.over h) [ some e ↦ err e | none ↦ time_left timeout (m.left h) ]

pub stop_within : Machine → Text → Text → Result CommandError ℤ → Io (Unit {0})
unfolding run_command
stop_within m path id (err e) h = ([], err e)
stop_within m path id (ok left) h =
    discard (wrap_outcome (run_command m left path (stop_args id) h))

pub stop_one : Machine → ℤ → Text → Text → Io (Unit {0})
unfolding stop_within
stop_one m timeout path id h = stop_within m path id (time_for m timeout h) h

-- The loop of `StopDocker`.
unfoldable pub stop_all : Machine → ℤ → Text → List Text → Io (Unit {0})
unfolding stop_one
stop_all m timeout path [] = from_result (ok tt)
stop_all m timeout path (id ∷ ids) = stop_one m timeout path id >> stop_all m timeout path ids

pub list_and_stop : Machine → ℤ → Text → Io (Unit {0})
unfolding run_command stop_all
list_and_stop m timeout path = do
  out ← λ h. wrap_outcome (run_command m timeout path ps_args h)
  stop_all m timeout path (parse_container_ids out)

unfoldable pub stop_docker : Machine → RealExecutor → Io (Unit {0})
unfolding list_and_stop
stop_docker m e = do
  path ← from_result (docker_bin m e)
  list_and_stop m (default_timeout (pos (30 * second)) e.docker_timeout) path

unfoldable pub sync_disks : Machine → RealExecutor → Io (Unit {0})
unfolding run_command
sync_disks m e = do
  path ← from_result (sync_bin m e)
  λ h.
      discard (
        wrap_outcome (run_command m (default_timeout (pos (15 * second)) e.sync_timeout) path [] h))

unfoldable pub power_off : Machine → RealExecutor → Io (Unit {0})
unfolding run_command
power_off m e = do
  argv ← from_result (power_off_argv m e)
  λ h. discard (
      wrap_outcome
        (run_command m (default_timeout (pos (30 * second)) e.power_off_timeout) argv.0 argv.1 h))

-- `DrainSyncPowerOff` on this executor.
unfoldable pub drain_sync_power_off : Machine → RealExecutor → Io (Unit {0})
drain_sync_power_off m e = stop_docker m e >> (sync_disks m e >> power_off m e)
