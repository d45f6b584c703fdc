-- ===== src/Actions/Real/Refinement.antt =====
-- The sequence on the machine refines the sequence of Safety.Executor, which knows only how each of
-- the three methods comes out.
use mathlib.Core.List.{append-nil}
use lap_guard.Base.{
  ℤ, Text, arith, refl, ◌≡◌, Bool, true, false, Option, none, some, List, [], ◌∷◌, ◌++◌, All,
  Result, ok, err,
}
use lap_guard.Config.{Action, stop_docker, sync}
use lap_guard.Safety.Executor.{Executor, host, Effect, executed, recorded, perform_all, perform}
use lap_guard.Safety.Executor
use lap_guard.Actions.Real.{
  Command, CommandError, Machine, RealExecutor, Outcome, Io, and_then, from_result, run_command,
  discard, wrap_outcome, sync_bin, power_off_argv, list_and_stop,
}
use lap_guard.Actions.Real
use lap_guard.Actions.Real.Commands.{
  IsDocker, IsSync, IsPowerOff, stop_docker-Runs, sync_disks-Runs, power_off-Runs, sync_timeout,
  off_timeout,
}

abbrev pub is_ok : {A : Type 0} → Result CommandError A → Bool
is_ok (ok a) = true
is_ok (err e) = false

abbrev pub is_none : {A : Type 0} → Option A → Bool
is_none none = true
is_none (some a) = false

-- The commands behind the effects of the abstract sequence.
abbrev pub expand : (Action → List Command) → List Effect → List Command
expand stage [] = []
expand stage (executed a ∷ rest) = stage a ++ expand stage rest
expand stage (recorded a ∷ rest) = expand stage rest

-- What one step of the sequence ran, for each action.
abbrev stages : List Command → List Command → List Command → Action → List Command
stages d s p stop_docker = d
stages d s p sync = s
stages d s p Action.power_off = p

abbrev abstract : Bool → Bool → Bool → List Effect × Option Executor.ExecError
abstract d s p = Executor.drain_sync_power_off (some (host d s p))

-- `out` is what the abstract run tells, given what the three methods ran and how they came out.
abbrev Matches :
    Outcome (Unit {0}) → Outcome (Unit {0}) → Outcome (Unit {0}) → Outcome (Unit {0}) → Type 0
Matches d s p out =
    let r = abstract (is_ok d.1) (is_ok s.1) (is_ok p.1) in
    (out.0 ≡ expand (stages d.0 s.0 p.0) r.0) × (is_ok out.1 ≡ is_none r.1)

last-Matches :
    (d s : List Command) (p : Outcome (Unit {0}))
    → Matches (d, ok tt) (s, ok tt) p (d ++ (s ++ p.0), p.1)
unfolding Executor.drain_sync_power_off
last-Matches d s (ran, ok x) = (rw append-nil, refl)
last-Matches d s (ran, err x) = (rw append-nil, refl)

after_docker-Matches :
    (d h : List Command) (s : Outcome (Unit {0})) (p : Io (Unit {0}))
    → let o = and_then h s (λ _. p) in Matches (d, ok tt) s (p (h ++ s.0)) (d ++ o.0, o.1)
unfolding Executor.drain_sync_power_off
after_docker-Matches d h (ran, ok x) p = last-Matches d ran (p (h ++ ran))
after_docker-Matches d h (ran, err x) p = (rw append-nil, refl)

all-Matches :
    (h : List Command) (d : Outcome (Unit {0})) (s p : Io (Unit {0}))
    → Matches d
        (s (h ++ d.0))
        (p ((h ++ d.0) ++ (s (h ++ d.0)).0))
        (and_then h d (λ _ h'. and_then h' (s h') (λ _. p)))
unfolding Executor.drain_sync_power_off
all-Matches h (ran, ok x) s p = after_docker-Matches ran (h ++ ran) (s (h ++ ran)) p
all-Matches h (ran, err x) s p = (rw append-nil, refl)

-- The three methods, each after what ran before it in the sequence.
abbrev docker_run : Machine → RealExecutor → Io (Unit {0})
docker_run m e h = Real.stop_docker m e h

abbrev sync_run : Machine → RealExecutor → Io (Unit {0})
sync_run m e h = Real.sync_disks m e (h ++ (docker_run m e h).0)

abbrev off_run : Machine → RealExecutor → Io (Unit {0})
off_run m e h = Real.power_off m e ((h ++ (docker_run m e h).0) ++ (sync_run m e h).0)

-- What a method ran is of its kind, and a method that succeeds ran something.
abbrev DoneBy : (Command → Type 0) → Outcome (Unit {0}) → Type 0
DoneBy P o = All P o.0 × (is_ok o.1 ≡ true → ¬ (o.0 ≡ []))

-- How one run of the sequence, after the commands `h`, matches the abstract one over the host whose
-- methods come out as the three methods did.
pub record Refines (m : Machine) (e : RealExecutor) (h : List Command) (out : Outcome (Unit {0}))
    : Type 0 where
  pub matches : Matches (docker_run m e h) (sync_run m e h) (off_run m e h) out
  pub docker_stage : DoneBy (IsDocker m e) (docker_run m e h)
  pub sync_stage : DoneBy (IsSync m e) (sync_run m e h)
  pub off_stage : DoneBy (IsPowerOff m e) (off_run m e h)

and_then-ran :
    {A B : Type 0} (h : List Command) (o : Outcome A) (f : A → Io B)
    → ((a : A) (h' : List Command) → is_ok (f a h').1 ≡ true → ¬ ((f a h').0 ≡ []))
    → is_ok (and_then h o f).1 ≡ true
    → ¬ ((and_then h o f).0 ≡ [])
and_then-ran h (ran, err e) f k ok_result = cc
and_then-ran h ([], ok a) f k ok_result = k a (h ++ []) ok_result
and_then-ran h (c ∷ ran, ok a) f k ok_result = λ e. cc

module _ (m : Machine) (e : RealExecutor) where
  run_command-ran :
      (t : ℤ) (name : Text) (args : List Text) (h : List Command)
      → is_ok (discard (wrap_outcome (run_command m t name args h))).1 ≡ true
      → ¬ ((discard (wrap_outcome (run_command m t name args h))).0 ≡ [])
  unfolding run_command
  run_command-ran t name args h = ground arith

  stop_docker-ran :
      (h : List Command)
      → is_ok (Real.stop_docker m e h).1 ≡ true
      → ¬ ((Real.stop_docker m e h).0 ≡ [])
  unfolding Real.stop_docker list_and_stop run_command
  stop_docker-ran h = ground arith

  sync_disks-ran :
      (h : List Command)
      → is_ok (Real.sync_disks m e h).1 ≡ true
      → ¬ ((Real.sync_disks m e h).0 ≡ [])
  unfolding Real.sync_disks
  sync_disks-ran h =
      and_then-ran h (from_result (sync_bin m e) h) _
        λ path h'. run_command-ran (sync_timeout e) path [] h'

  power_off-ran :
      (h : List Command) → is_ok (Real.power_off m e h).1 ≡ true → ¬ ((Real.power_off m e h).0 ≡ [])
  unfolding Real.power_off
  power_off-ran h =
      and_then-ran h (from_result (power_off_argv m e) h) _
        λ argv h'. run_command-ran (off_timeout e) argv.0 argv.1 h'

-- Whatever the machine answers and whatever ran before, a run of the sequence is the abstract
-- sequence over the host whose three methods come out as the executor's do: its commands are those
-- of the methods that the abstract run executes, in that order, and it succeeds exactly where the
-- abstract run does. Each method runs commands of its own kind only, and has run at least one where
-- it succeeds.
pub drain-Refines :
    (m : Machine) (e : RealExecutor) (h : List Command)
    → Refines m e h (Real.drain_sync_power_off m e h)
unfolding Real.drain_sync_power_off Executor.drain_sync_power_off
drain-Refines m e h = record {
  matches = all-Matches h (docker_run m e h) (Real.sync_disks m e) (Real.power_off m e);
  docker_stage = (stop_docker-Runs m e h, stop_docker-ran m e h);
  sync_stage = (
    sync_disks-Runs m e (h ++ (docker_run m e h).0),
    sync_disks-ran m e (h ++ (docker_run m e h).0),
  );
  off_stage = (
    power_off-Runs m e ((h ++ (docker_run m e h).0) ++ (sync_run m e h).0),
    power_off-ran m e ((h ++ (docker_run m e h).0) ++ (sync_run m e h).0),
  );
}
