-- ===== src/Safety/AutoDrain/Gates.antt =====
-- What the gates of a smart drain snapshot say (autoDrainGates of internal/safety/auto_drain.go).
use lap_guard.Base.{◌≡◌, ◌↔◌, Bool, true, false, none, List, [], arith}
use lap_guard.Config.{Config, manual_actions_ready}
use lap_guard.Safety.{Sample}
use lap_guard.Safety.AutoDrain.{Deps, auto_drain_gates, start_block_reason, DrainGate, gate_if}

gate_if-nil :
    (b : Bool) (g : DrainGate) (rest : List DrainGate)
    → gate_if b g rest ≡ []
    → (b ≡ false) × (rest ≡ [])
gate_if-nil true g rest h = cc
gate_if-nil false g rest h = ground arith

-- The snapshot lists no gate exactly when a prompt would start at this sample and real actions are
-- ready, given a battery that is present and a notifier.
pub auto_drain_gates_lem :
    (d : Deps) (cfg : Config) (s : Sample)
    → s.present ≡ true
    → d.has_notifier ≡ true
    → (auto_drain_gates d.valid_url cfg s ≡ [])
      ↔ ((start_block_reason d cfg s ≡ none) × (manual_actions_ready cfg ≡ true))
unfolding auto_drain_gates start_block_reason manual_actions_ready
auto_drain_gates_lem d cfg s p n = (λ h. ground arith, λ h. ground arith)
