-- ===== src/Safety/Controller/Plans.antt =====
-- When the safety controller plans a shutdown, and what an event says.
use lap_guard.Base.{
  ℕ, ◌+◌, ◌*◌, ◌≤◌, ◌≡◌, ◌≢◌, ◌⊎◌, inl, inr, ℤ, pos, pos_part, ◌≤ℤ◌, true, false, some, [], arith,
}
use lap_guard.Config.{Config}
use lap_guard.Power.{Source, battery, ac}
use lap_guard.Safety.{Sample, second, stamp}
use lap_guard.Safety.Controller.{
  Controller, Latches, shutdown_pending, evaluate, discharging_case, unlatch_if_recovered, tick,
  intended_plan, has_plan,
}

-- What a plan rests on: shutdown is enabled, the pack is present, discharging on battery, at or
-- below the critical threshold and not below the minimum, and the cooldown since the last plan has
-- passed, unless the sample is a simulation.
pub record Planned (cfg : Config) (s : Sample) (last : ℕ) : Type 0 where
  pub enabled : cfg.shutdown.enabled ≡ true
  pub present : s.present ≡ true
  pub discharging : s.discharging ≡ true
  pub not_ac : (s.source ≢ ac) × (s.source ≢ Source.unknown)
  pub on_battery : cfg.safety.require_ac_loss ≡ true → s.source ≡ battery
  pub percent : (p : ℤ) → s.percent ≡ some p → p ≤ℤ cfg.shutdown.critical_threshold
  pub cooled :
      s.force ≡ false
      → last ≢ 0
      → pos 1 ≤ℤ cfg.safety.cooldown_seconds
      → last + pos_part cfg.safety.cooldown_seconds * second ≤ s.now

evaluate-Planned :
    (cfg : Config) (s : Sample) (last : ℕ) (l : Latches)
    → (evaluate cfg s last l).1.plan ≢ []
    → Planned cfg s last
unfolding evaluate discharging_case unlatch_if_recovered
evaluate-Planned cfg s last l h = ground arith

-- A plan is the configured one, comes with a critical event and leaves the shutdown latched.
evaluate-plan :
    (cfg : Config) (s : Sample) (last : ℕ) (l : Latches)
    → let r = evaluate cfg s last l in
      (r.1.plan ≡ [])
      ⊎ ((r.1.plan ≡ intended_plan cfg.docker)
          × (has_plan r.1.plan ≡ true)
          × (r.1.state ≡ shutdown_pending)
          × (r.0.shutdown_latched ≡ true))
unfolding evaluate discharging_case unlatch_if_recovered intended_plan
evaluate-plan cfg s last l = ground arith

-- A sample either leaves the plan and its time alone, or meets every condition of a plan; then the
-- plan is the configured one, its time is the sample's, and the state is SHUTDOWN_PENDING.
pub tick_plans :
    (cfg : Config) (clock : ℕ) (s : Sample) (c : Controller)
    → let c' = (tick cfg clock s c).0 in
      ((c'.last_plan ≡ c.last_plan) × (c'.last_action_at ≡ c.last_action_at))
      ⊎ (Planned cfg (stamp clock s) c.last_action_at
          × (c'.last_plan ≡ intended_plan cfg.docker)
          × (c'.last_action_at ≡ (stamp clock s).now)
          × (c'.state ≡ shutdown_pending))
unfolding tick
tick_plans cfg clock s c = elim (evaluate-plan cfg (stamp clock s) c.last_action_at c.latches) [
  | inl e ↦ inl (ground arith)
  | inr p ↦ inr (
    evaluate-Planned cfg (stamp clock s) c.last_action_at c.latches (λ e. ground arith),
    ground arith,
    ground arith,
    ground arith,
  )
]
