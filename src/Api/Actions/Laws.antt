-- ===== src/Api/Actions/Laws.antt =====
-- What stands between a request and the machine, and what the status page promises of a request.
use mathlib.Core.Path.{subst}
use lap_guard.Base.{
  Option-cases, ℕ, ◌≡◌, ◌≢◌, ◌↔◌, ◌⊎◌, inl, inr, true, false, none, some, List, [], ◌∷◌, Text,
  text_eq, arith, Any,
}
use lap_guard.Config.{Config, Action, manual_actions_ready, intended_plan, action_gates}
use lap_guard.Power.{Source, battery}
use lap_guard.Safety.Executor.{recorder, host, Effect, recorded, executed, perform_all, perform}
use lap_guard.Api.Guard.{Guard, begin, finish, status}
use lap_guard.Api.Actions.{
  Manual, manual_power_off, want_confirm, BatteryReading, safety_gate, live_action_gates, ready,
  idempotency_hash, Actors, or_new_recorder, manual_executor, manual_steps, Request, done, admit,
  run_admitted, run_manual_action,
}

abbrev pub Executes : Effect → Type 0
Executes (executed a) = Unit
Executes (recorded a) = ⊥

abbrev pub all_executed : List Action → List Effect
all_executed [] = []
all_executed (a ∷ steps) = executed a ∷ all_executed steps

-- Every condition under which a request may reach the machine.
pub record Permitted (m : Manual) (cfg later : Config) (src : Source) (bat : BatteryReading)
    (r : Request) (g : Guard) : Type 0 where
  pub confirmed : (c : Text) × (r.confirm ≡ some c) × (text_eq c (want_confirm m) ≡ true)
  pub ready_then : manual_actions_ready cfg ≡ true
  pub ready_later : manual_actions_ready later ≡ true
  pub on_battery : src ≡ battery
  pub discharging : bat.discharging ≡ true
  pub idle : g.inflight ≡ false

recorder_only : (steps : List Action) → ¬ Any Executes (perform_all recorder steps).0
unfolding perform_all perform
recorder_only [] h = h
recorder_only (a ∷ steps) (inl h) = elim h [ ]
recorder_only (a ∷ steps) (inr h) = recorder_only steps h

run_admitted-effects :
    (m : Manual) (cfg later : Config) (a : Actors) (now : ℕ) (g : Guard)
    → (run_admitted m cfg later a now g).2
      ≡ (perform_all (manual_executor later a) (manual_steps m cfg)).0
unfolding run_admitted
run_admitted-effects m cfg later a now g = ground arith

run_admitted-recorder :
    (m : Manual) (cfg later : Config) (a : Actors) (now : ℕ) (g : Guard)
    → manual_executor later a ≡ recorder
    → ¬ Any Executes (run_admitted m cfg later a now g).2
run_admitted-recorder m cfg later a now g e h = recorder_only (manual_steps m cfg) (
    subst (λ x. Any Executes (perform_all x (manual_steps m cfg)).0) e
      (subst (Any Executes) (run_admitted-effects m cfg later a now g) h))

executor-recorder :
    (later : Config) (a : Actors)
    → a.test_actor ≡ none
    → or_new_recorder a.rec ≡ recorder
    → (manual_actions_ready later ≡ true) ⊎ (manual_executor later a ≡ recorder)
unfolding manual_executor
executor-recorder later a t r = ground arith

run_admitted-real :
    (m : Manual) (cfg later : Config) (a : Actors) (now : ℕ) (g : Guard)
    → a.test_actor ≡ none
    → or_new_recorder a.rec ≡ recorder
    → Any Executes (run_admitted m cfg later a now g).2
    → manual_actions_ready later ≡ true
run_admitted-real m cfg later a now g t r h = elim (executor-recorder later a t r) [
  | inl k ↦ k
  | inr e ↦ absurd (run_admitted-recorder m cfg later a now g e h)
]

admit-conditions :
    (hash : Text → Text) (m : Manual) (cfg : Config) (src : Source) (bat : BatteryReading) (now : ℕ)
    (r : Request) (g : Guard)
    → (admit hash m cfg src bat now r g).1 ≡ none
    → ((c : Text) × (r.confirm ≡ some c) × (text_eq c (want_confirm m) ≡ true))
      × (manual_actions_ready cfg ≡ true)
      × (src ≡ battery)
      × (bat.discharging ≡ true)
      × (g.inflight ≡ false)
unfolding admit safety_gate begin manual_actions_ready
admit-conditions hash m cfg src bat now r g h = ground arith

run-admitted :
    (hash : Text → Text) (m : Manual) (cfg later : Config) (src : Source) (bat : BatteryReading)
    (a : Actors) (now : ℕ) (r : Request) (g : Guard)
    → Any Executes (run_manual_action hash m cfg later src bat a now r g).2
    → Any Executes (run_admitted m cfg later a now (admit hash m cfg src bat now r g).0).2
      × ((admit hash m cfg src bat now r g).1 ≡ none)
unfolding run_manual_action
run-admitted hash m cfg later src bat a now r g h =
    elim (Option-cases (admit hash m cfg src bat now r g).1) [
      | inl e ↦ ground arith
      | inr (x, e) ↦ ground arith
    ]

-- Where the server has no executor of the tests and its recorder only records: a request that
-- makes anything run on the machine had its confirmation text, settings that enable real actions at
-- its start and again when the executor is chosen, a machine on battery that discharges, and no
-- action in flight.
pub run_manual_action-Permitted :
    (hash : Text → Text) (m : Manual) (cfg later : Config) (src : Source) (bat : BatteryReading)
    (a : Actors) (now : ℕ) (r : Request) (g : Guard)
    → a.test_actor ≡ none
    → or_new_recorder a.rec ≡ recorder
    → Any Executes (run_manual_action hash m cfg later src bat a now r g).2
    → Permitted m cfg later src bat r g
run_manual_action-Permitted hash m cfg later src bat a now r g t rec h =
    let (acted, let_in) = run-admitted hash m cfg later src bat a now r g h in
    let (confirmed, ready_then, on_battery, discharging, idle) =
      admit-conditions hash m cfg src bat now r g let_in in
    record {
      confirmed = confirmed;
      ready_then = ready_then;
      ready_later =
          run_admitted-real m cfg later a now (admit hash m cfg src bat now r g).0 t rec acted;
      on_battery = on_battery;
      discharging = discharging;
      idle = idle;
    }

-- A power off that is let in, and whose commands all succeed on the machine, runs the configured
-- plan in order, replies that it is done, and dates the cooldown from the time at which it was let in.
pub run_admitted_power_off :
    (cfg later : Config) (a : Actors) (now : ℕ) (g : Guard)
    → manual_executor later a ≡ host true true true
    → let r = run_admitted manual_power_off cfg later a now g in
      (r.2 ≡ all_executed (intended_plan cfg))
      × (r.1 ≡ done)
      × (r.0.last ≡ now)
      × (r.0.inflight ≡ false)
unfolding run_admitted manual_steps intended_plan perform_all perform finish
run_admitted_power_off cfg later a now g e = ground arith

-- With confirmation required in the settings, a request with the right text and a usable key is let
-- in exactly where the status page says at that moment that actions are ready.
pub ready_lem :
    (hash : Text → Text) (m : Manual) (cfg : Config) (src : Source) (bat : BatteryReading) (now : ℕ)
    (c raw : Text) {key : Text} (g : Guard)
    → cfg.actions.require_confirmation ≡ true
    → text_eq c (want_confirm m) ≡ true
    → idempotency_hash hash raw ≡ some key
    → ((admit hash m cfg src bat now (record { confirm = some c; key = raw }) g).1 ≡ none)
      ↔ (ready cfg src bat now g ≡ true)
unfolding admit safety_gate begin ready live_action_gates status action_gates manual_actions_ready
ready_lem hash m cfg src bat now c raw g q t k = (λ h. ground arith, λ h. ground arith)

-- A request that is not let in changes nothing, on the machine or in the guard; and a guard that
-- was free is free again after any request, its cooldown dated from the start of one that was done.
pub run_manual_action_guard :
    (hash : Text → Text) (m : Manual) (cfg later : Config) (src : Source) (bat : BatteryReading)
    (a : Actors) (now : ℕ) (r : Request) (g : Guard)
    → let w = run_manual_action hash m cfg later src bat a now r g in
      ((admit hash m cfg src bat now r g).1 ≢ none → (w.0 ≡ g) × (w.2 ≡ []))
      × (g.inflight ≡ false → w.0.inflight ≡ false)
      × (w.1 ≡ done → w.0.last ≡ now)
      × (w.1 ≢ done → w.0.last ≡ g.last)
unfolding run_manual_action admit run_admitted finish begin
run_manual_action_guard hash m cfg later src bat a now r g = ground arith
