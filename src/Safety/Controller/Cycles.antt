-- ===== src/Safety/Controller/Cycles.antt =====
-- The latches of the safety controller: a critical event comes once until the pack recovers.
use lap_guard.Base.{
  ℕ, ◌≡◌, ◌≢◌, inl, inr, refl, ℤ, ◌≤ℤ◌, ◌+ℤ◌, Bool, true, false, Option, none, some, List, [], ◌∷◌,
  arith, All, Option-cases, suc, ◌≤◌, Bool-cases, if◌then◌else◌,
}
use lap_guard.Config.{Config}
use lap_guard.Power.{ac}
use lap_guard.Safety.{Sample, recovery_margin, stamp}
use lap_guard.Safety.Controller.{
  Controller, Latches, Event, battery_warning, battery_critical, Verdict, known_percent, on_percent,
  unlatch_if_recovered, discharging_case, evaluate, tick, run, simulate, simulate_critical,
  intended_plan,
}

-- A sample that does not rearm the critical event: no AC, and no charge above the margin.
abbrev pub KeepsLow : Config → Sample → Type 0
KeepsLow cfg s =
    (s.source ≢ ac)
    × ((p : ℤ) → s.percent ≡ some p → p ≤ℤ cfg.shutdown.critical_threshold +ℤ recovery_margin)

abbrev pub is_critical : Option Event → Bool
is_critical none = false
is_critical (some e) = elim e.kind [ battery_critical ↦ true | battery_warning ↦ false ]

abbrev StaysLatched : Latches × Verdict → Type 0
StaysLatched r = (r.0.critical_latched ≡ true) × (is_critical r.1.event ≡ false)

discharging_latched :
    (cfg : Config) (s : Sample) (p : ℤ) (last : ℕ) (l : Latches)
    → l.critical_latched ≡ true
    → StaysLatched (discharging_case cfg s p last l)
unfolding discharging_case
discharging_latched cfg s p last l h = ground arith

unlatch_low :
    (p w k : ℤ) (l : Latches)
    → p ≤ℤ k +ℤ recovery_margin
    → l.critical_latched ≡ true
    → (unlatch_if_recovered p w k l).critical_latched ≡ true
unfolding unlatch_if_recovered
unlatch_low p w k l h c = ground arith

known_latched :
    (cfg : Config) (s : Sample) (p : ℤ) (last : ℕ) (l : Latches)
    → s.source ≢ ac
    → p ≤ℤ cfg.shutdown.critical_threshold +ℤ recovery_margin
    → l.critical_latched ≡ true
    → StaysLatched (known_percent cfg s p last l)
unfolding known_percent
known_latched cfg s p last l a h c =
    let w = cfg.shutdown.warning_threshold in
    let k = cfg.shutdown.critical_threshold in
    let u = unlatch_low p w k l h c in
    ground (arith, u, discharging_latched cfg s p last (unlatch_if_recovered p w k l) u)

evaluate_latched :
    (cfg : Config) (s : Sample) (last : ℕ) (l : Latches)
    → KeepsLow cfg s
    → l.critical_latched ≡ true
    → StaysLatched (evaluate cfg s last l)
unfolding evaluate
evaluate_latched cfg s last l (a, h) c = elim (Option-cases s.percent) [
  | inl e ↦ rw (e, on_percent) (ground arith)
  | inr (p, e) ↦ rw (e, on_percent) (ground (arith, known_latched cfg s p last l a (h p e) c))
]

tick_latched :
    (cfg : Config) (clock : ℕ) (s : Sample) (c : Controller)
    → KeepsLow cfg s
    → c.latches.critical_latched ≡ true
    → let r = tick cfg clock s c in
      (r.0.latches.critical_latched ≡ true) × (is_critical r.1 ≡ false)
unfolding tick
tick_latched cfg clock s c low latched =
    evaluate_latched cfg (stamp clock s) c.last_action_at c.latches low latched

-- A critical event latches.
evaluate_critical :
    (cfg : Config) (s : Sample) (last : ℕ) (l : Latches)
    → is_critical (evaluate cfg s last l).1.event ≡ true
    → (evaluate cfg s last l).0.critical_latched ≡ true
unfolding evaluate known_percent discharging_case
evaluate_critical cfg s last l h = ground arith

tick_critical :
    (cfg : Config) (clock : ℕ) (s : Sample) (c : Controller)
    → is_critical (tick cfg clock s c).1 ≡ true
    → (tick cfg clock s c).0.latches.critical_latched ≡ true
unfolding tick
tick_critical cfg clock s c h = evaluate_critical cfg (stamp clock s) c.last_action_at c.latches h

pub criticals : List Event → ℕ
criticals [] = 0
criticals (e ∷ es) = let n = criticals es in if is_critical (some e) then suc n else n

abbrev pub SampleKeepsLow : Config → ℕ × Sample → Type 0
SampleKeepsLow cfg t = KeepsLow cfg t.1

run_latched :
    (cfg : Config) (samples : List (ℕ × Sample)) (c : Controller)
    → All (SampleKeepsLow cfg) samples
    → c.latches.critical_latched ≡ true
    → criticals (run cfg samples c).1 ≡ 0
unfolding run criticals
run_latched cfg [] c low latched = refl
run_latched cfg ((clock, s) ∷ rest) c low latched =
    let (still, silent) = tick_latched cfg clock s c low.0 latched in
    ground (arith, silent, run_latched cfg rest (tick cfg clock s c).0 low.1 still)

-- Whatever the controller held before, samples that stay off AC and never rise above the critical
-- threshold by more than the margin bring at most one critical event.
pub run_critical_once :
    (cfg : Config) (samples : List (ℕ × Sample)) (c : Controller)
    → All (SampleKeepsLow cfg) samples
    → criticals (run cfg samples c).1 ≤ 1
unfolding run criticals
run_critical_once cfg [] c low = omega arith
run_critical_once cfg ((clock, s) ∷ rest) c low =
    let later = run_critical_once cfg rest (tick cfg clock s c).0 low.1 in
    elim (Bool-cases (is_critical (tick cfg clock s c).1)) [
      | inl fired ↦ ground (
        arith,
        run_latched cfg rest (tick cfg clock s c).0 low.1 (tick_critical cfg clock s c fired),
      )
      | inr silent ↦ ground (arith, later)
    ]

-- The simulation of a critical battery always brings a critical event, whatever is latched and
-- however recent the last plan, unless a configured minimum is above the critical threshold; with
-- shutdown enabled it plans.
pub simulate_critical_lem :
    (cfg : Config) (clock : ℕ) (c : Controller)
    → cfg.safety.minimum_battery_percent ≤ℤ cfg.shutdown.critical_threshold
    → let r = simulate cfg clock simulate_critical c in
      (is_critical r.1 ≡ true)
      × (cfg.shutdown.enabled ≡ true → r.0.last_plan ≡ intended_plan cfg.docker)
unfolding simulate tick evaluate known_percent discharging_case unlatch_if_recovered intended_plan
simulate_critical_lem cfg clock c h = ground arith
