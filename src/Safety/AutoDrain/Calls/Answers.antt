-- ===== src/Safety/AutoDrain/Calls/Answers.antt =====
-- What an answer to the prompt of the smart drain does (Respond of internal/safety/auto_drain.go).
use lap_guard.Base.{
  ℕ, ◌≡◌, ◌≢◌, refl, true, false, none, some, List, [], ◌∷◌, ◌++◌, arith, All, Text, ok, err,
}
use lap_guard.Config.{Config}
use lap_guard.Safety.{Sample, stamp}
use lap_guard.Safety.Executor.{Effect, drain_sync_power_off}
use lap_guard.Safety.AutoDrain.{
  AutoDrain, Deps, Delivery, Response, yes_response, no_response, aborted, executing, is_awaiting,
  pick_executor, execute_block_reason, recovered,
}
use lap_guard.Safety.AutoDrain.Handlers.{
  begin_tick, begin_execute, begin_respond, end_execute, parse_action, no_pending, invalid_action,
}
use lap_guard.Safety.AutoDrain.Calls.{tick, respond, run_execute}

-- An answer that is not yes or no changes nothing and comes back as invalid. One that is, while no
-- prompt is pending, changes nothing and comes back as not asked for. No executor acts.
pub respond_refused :
    (d : Deps) (cfg : Config) (clock : ℕ) (raw : Text) (a : AutoDrain)
    → (parse_action raw ≡ none → respond d cfg clock raw a ≡ (a, err invalid_action))
      × ((x : Response)
          → parse_action raw ≡ some x
          → is_awaiting a.state ≡ false
          → respond d cfg clock raw a ≡ (a, err no_pending))
unfolding respond begin_respond
respond_refused d cfg clock raw a = (λ p. rw (p, respond), λ x p w. rw (p, respond) (ground arith))

-- NO to a pending prompt whose warning is marked as sent acts on nothing, is recorded, and ends in
-- ABORTED.
pub respond_no :
    (d : Deps) (cfg : Config) (clock : ℕ) (raw : Text) (a : AutoDrain)
    → parse_action raw ≡ some no_response
    → is_awaiting a.state ≡ true
    → a.notified ≡ true
    → let r = respond d cfg clock raw a in
      (r.1 ≡ ok []) × (r.0.state ≡ aborted) × (r.0.last_response ≡ some no_response)
unfolding respond begin_respond
respond_no d cfg clock raw a p w n = ground arith

-- YES to a pending prompt whose warning is marked as sent runs the plan on the executor that the
-- settings pick, if settings and last sample still allow it, and otherwise acts on nothing; either
-- way the state is EXECUTING.
pub respond_yes :
    (d : Deps) (cfg : Config) (clock : ℕ) (raw : Text) (a : AutoDrain)
    → parse_action raw ≡ some yes_response
    → is_awaiting a.state ≡ true
    → a.notified ≡ true
    → let r = respond d cfg clock raw a in
      (r.0.state ≡ executing)
      × (execute_block_reason true cfg (stamp clock a.last_sample) ≡ none
          → r.1 ≡ ok (drain_sync_power_off (some (pick_executor d cfg))).0)
      × (execute_block_reason true cfg (stamp clock a.last_sample) ≢ none → r.1 ≡ ok [])
unfolding respond begin_respond run_execute begin_execute end_execute
respond_yes d cfg clock raw a p w n =
    rw (p, respond) (ground arith, λ q. ground arith, λ q. ground arith)

-- What a tick meets: the settings, which are read anew at each, the clock, the sample, and what the
-- notifier would answer.
abbrev pub TickInput : Type 0
TickInput = Config × ℕ × Sample × Delivery

-- The ticks of a run, oldest first, and everything that executors were made to do.
pub runs : Deps → List TickInput → AutoDrain → AutoDrain × List Effect
runs d [] a = (a, [])
runs d ((cfg, clock, s, outcome) ∷ rest) a =
    let (a', now) = tick d cfg clock s outcome a in
    let (a'', later) = runs d rest a' in (a'', now ++ later)

-- The smart drain is enabled, and the sample shows no recovery under the settings of its tick.
abbrev pub StaysLow : TickInput → Type 0
StaysLow (cfg, clock, s, outcome) =
    (cfg.auto_drain.enabled ≡ true) × (recovered cfg (stamp clock s) ≡ false)

tick_aborted :
    (d : Deps) (cfg : Config) (clock : ℕ) (s : Sample) (outcome : Delivery) (a : AutoDrain)
    → cfg.auto_drain.enabled ≡ true
    → recovered cfg (stamp clock s) ≡ false
    → a.state ≡ aborted
    → let r = tick d cfg clock s outcome a in (r.0.state ≡ aborted) × (r.1 ≡ [])
unfolding tick begin_tick
tick_aborted d cfg clock s outcome a e low h = ground arith

-- From ABORTED, while the smart drain stays enabled and no sample shows a recovery: however many
-- ticks follow, and however the other settings change from tick to tick, the state stays ABORTED
-- and no executor acts.
pub aborted_stays :
    (d : Deps) (ticks : List TickInput) (a : AutoDrain)
    → a.state ≡ aborted
    → All StaysLow ticks
    → let r = runs d ticks a in (r.0.state ≡ aborted) × (r.1 ≡ [])
unfolding runs
aborted_stays d [] a h low = (h, refl)
aborted_stays d ((cfg, clock, s, outcome) ∷ rest) a h ((e, low), later) =
    let (still, silent) = tick_aborted d cfg clock s outcome a e low h in
    ground (arith, silent, aborted_stays d rest (tick d cfg clock s outcome a).0 still later)
