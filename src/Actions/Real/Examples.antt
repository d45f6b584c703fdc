-- ===== src/Actions/Real/Examples.antt =====
-- A machine with one container, on which every command succeeds.
use lap_guard.Base.{
  len_bytes, contains_any, trim_space, ◌≡◌, refl, Option, none, some, List, [], ◌∷◌, All, Text,
  codes, Result, ok, pos, ◌*◌, ◌++◌, text_eq,
}
use lap_guard.Config.Normalize.{base, is_abs}
use lap_guard.Safety.{second}
use lap_guard.Actions.Argv.{
  poweroff, ps_args, stop_args, validate_argv, valid_container_id, lines, keep_ids, args_for,
  all_hex, parse_container_ids, plain_args,
}
use lap_guard.Actions.Real.{
  ℤ, is_abs, Command, CommandError, Machine, RealExecutor, drain_sync_power_off, look, run_command,
  stop_docker, sync_disks, power_off, stop_all, docker_bin, sync_bin, power_off_argv,
}
use lap_guard.Actions.Real.Commands.{Passes, drain-Passes}
use lap_guard.Actions.Real.Refinement.{Refines, drain-Refines}

abbrev container : Text
container = codes "0123456789ab"

abbrev looks : Text → Option Text
looks name = some (codes "/usr/bin/" ++ name)

abbrev answers : List Command → Command → Result CommandError Text
answers before c = ok (container ++ (10 ∷ codes "not an id"))

abbrev machine : Machine
machine = record { look = looks; run = answers; over = λ h. none; left = λ h. none }

abbrev settings : RealExecutor
settings = record {
  docker_path = [];
  power_off_path = [];
  sync_path = codes "/bin/sync";
  docker_timeout = pos 0;
  power_off_timeout = pos 0;
  sync_timeout = pos 0;
}

abbrev given : Text → List Text → ℤ → Command
given name args t = record { name = name; args = args; timeout = t }

drain-Passes_example : All Passes (drain_sync_power_off machine settings []).0
drain-Passes_example = drain-Passes machine settings []

drain-Refines_example : Refines machine settings [] (drain_sync_power_off machine settings [])
drain-Refines_example = drain-Refines machine settings []

ran : drain_sync_power_off machine settings [] ≡ (
  given (codes "/usr/bin/docker") ps_args (pos (30 * second))
      ∷ given (codes "/usr/bin/docker") (stop_args container) (pos (30 * second))
      ∷ given (codes "/bin/sync") [] (pos (15 * second))
      ∷ given (codes "/usr/bin/systemctl") (poweroff ∷ []) (pos (30 * second))
      ∷ [],
  ok tt,
)
unfolding drain_sync_power_off stop_docker sync_disks power_off docker_bin sync_bin power_off_argv
    look run_command stop_all validate_argv parse_container_ids valid_container_id lines keep_ids
    args_for all_hex plain_args text_eq is_abs base trim_space contains_any len_bytes
ran = refl
