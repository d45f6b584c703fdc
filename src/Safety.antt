-- ===== src/Safety.antt =====
-- The types that the two controllers of internal/safety share (controller.go, executor.go, types.go
-- and state.go).
pub mod Executor
pub mod Controller
pub mod AutoDrain
use lap_guard.Base.{ℕ, ◌==◌, ℤ, pos, Bool, false, Option, none, [], Text, if◌then◌else◌}
use lap_guard.Power.{Source, unset}

-- One input of a controller. `now` is in nanoseconds, 0 for Go's zero time; `force` marks a
-- simulation.
pub record Sample : Type 0 where
  pub now : ℕ
  pub present : Bool
  pub percent : Option ℤ
  pub status : Text
  pub discharging : Bool
  pub source : Source
  pub force : Bool

abbrev pub recovery_margin : ℤ
recovery_margin = pos 2

abbrev pub second : ℕ
second = 1_000_000_000

-- `if sample.Now.IsZero() { sample.Now = now() }`
abbrev pub stamp : ℕ → Sample → Sample
stamp clock s = record s { now = if s.now == 0 then clock else s.now }

-- Go's zero `Sample`.
abbrev pub zero_sample : Sample
zero_sample = record {
  now = 0;
  present = false;
  percent = none;
  status = [];
  discharging = false;
  source = unset;
  force = false;
}
