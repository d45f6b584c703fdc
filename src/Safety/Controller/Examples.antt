-- ===== src/Safety/Controller/Examples.antt =====
-- The safety controller at a battery of 8 percent, and its theorems there.
use lap_guard.Base.{
  ◌+ℤ◌, ℕ, ◌≤◌, ◌≡◌, refl, pos, true, false, some, List, [], ◌∷◌, arith, codes, All,
}
use lap_guard.Config.{Config, defaults, sync, power_off}
use lap_guard.Power.{battery}
use lap_guard.Safety.{Sample}
use lap_guard.Safety.Controller.{
  new, tick, run, evaluate, intended_plan, known_percent, discharging_case, unlatch_if_recovered,
}
use lap_guard.Safety.Controller.Cycles.{SampleKeepsLow, criticals, run_critical_once}

-- Shutdown enabled at 10 percent.
abbrev armed : Config
armed = record defaults { shutdown = record defaults.shutdown { enabled = true } }

abbrev low : Sample
low = record {
  now = 1_000_000_000;
  present = true;
  percent = some (pos 8);
  status = codes "Discharging";
  discharging = true;
  source = battery;
  force = false;
}

low_plans : (tick armed 5 low new).0.last_plan ≡ sync ∷ power_off ∷ []
unfolding tick evaluate known_percent discharging_case unlatch_if_recovered intended_plan new ◌+ℤ◌
low_plans = refl

abbrev samples : List (ℕ × Sample)
samples = (5, low) ∷ (6, record low { percent = some (pos 12) }) ∷ (7, low) ∷ []

samples-low : All (SampleKeepsLow armed) samples
unfolding ◌+ℤ◌
samples-low = ground arith

run_critical_once_example : criticals (run armed samples new).1 ≤ 1
run_critical_once_example = run_critical_once armed samples new samples-low
