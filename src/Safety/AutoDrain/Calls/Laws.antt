-- ===== src/Safety/AutoDrain/Calls/Laws.antt =====
-- What an undisturbed call of Tick or Respond does (internal/safety/auto_drain.go).
use lap_guard.Base.{
  ℕ, ◌≤◌, ◌<◌, ◌≡◌, ◌≢◌, refl, ℤ, ◌≤ℤ◌, true, false, Option, none, some, [], arith,
}
use mathlib.Core.Path.{subst₂}
use lap_guard.Config.{Config}
use lap_guard.Power.{ac}
use lap_guard.Safety.{Sample, stamp}
use lap_guard.Safety.Executor.{drain_sync_power_off}
use lap_guard.Safety.AutoDrain.{
  AutoDrain, Deps, Delivery, Response, timed_out, timeout, is_awaiting, pick_executor, is_above,
  awaiting_response, execute_block_reason, reset_to_idle,
}
use lap_guard.Safety.AutoDrain.Handlers.{
  begin_tick, begin_execute, end_execute, Next, settled, send, execute,
}
use lap_guard.Safety.AutoDrain.Calls.{tick, run_execute, continue}

-- What a sequence needs of the settings and of the sample.
pub record Executable (cfg : Config) (s : Sample) : Type 0 where
  pub enabled : cfg.auto_drain.enabled ≡ true
  pub stop_enabled : cfg.docker.stop_enabled ≡ true
  pub discharging : s.discharging ≡ true
  pub off_ac : s.source ≢ ac
  pub low : (p : ℤ) × (s.percent ≡ some p) × (p ≤ℤ cfg.auto_drain.battery_threshold_percent)

execute_effects :
    (d : Deps) (cfg : Config) (s : Sample) (trigger : Response) (a : AutoDrain)
    → (run_execute d cfg s trigger a).1 ≢ []
    → (a.notified ≡ true) × (execute_block_reason a.notified cfg s ≡ none)
unfolding run_execute begin_execute
execute_effects d cfg s trigger a h = ground arith

at_most : (o : Option ℤ) (l : ℤ) → is_above o l ≡ false → (p : ℤ) × (o ≡ some p) × (p ≤ℤ l)
at_most none l h = cc
at_most (some p) l h = (p, refl, ground arith)

execute_block_low :
    (cfg : Config) (s : Sample)
    → execute_block_reason true cfg s ≡ none
    → is_above s.percent cfg.auto_drain.battery_threshold_percent ≡ false
unfolding execute_block_reason
execute_block_low cfg s h = ground arith

Executable-intro :
    (cfg : Config) (s : Sample) → execute_block_reason true cfg s ≡ none → Executable cfg s
unfolding execute_block_reason
Executable-intro cfg s h = record {
  enabled = ground arith;
  stop_enabled = ground arith;
  discharging = ground arith;
  off_ac = ground arith;
  low = at_most _ _ (execute_block_low cfg s h);
}

begin_tick-execute :
    (d : Deps) (cfg : Config) (clock : ℕ) (s : Sample) (a : AutoDrain) {c : Config} {t : Sample}
    {trigger : Response}
    → (begin_tick d cfg clock s a).1 ≡ execute c t trigger
    → (c ≡ cfg)
      × (t ≡ stamp clock s)
      × (a.notified ≡ true)
      × (is_awaiting a.state ≡ true)
      × (a.deadline ≤ (stamp clock s).now)
unfolding begin_tick is_awaiting reset_to_idle
begin_tick-execute d cfg clock s a h = ground arith

continue_acts :
    (d : Deps) (outcome : Delivery) (n : Next) (a : AutoDrain)
    → (continue d outcome n a).1 ≢ []
    → (c : Config) × (t : Sample) × (r : Response) × (n ≡ execute c t r) × Executable c t
unfolding continue
continue_acts d outcome settled a h = absurd (h refl)
continue_acts d outcome (send cfg s) a h = absurd (h refl)
continue_acts d outcome (execute cfg s r) a h =
    let (n, e) = execute_effects d cfg s r a h in
    (cfg, s, r, refl, Executable-intro cfg s (rw n at e))

-- A tick makes an executor act only if a prompt is pending whose warning is marked as sent, its
-- deadline has passed, the smart drain and Docker stops are enabled, and the pack discharges off AC
-- at or below the threshold.
pub tick_acts_only :
    (d : Deps) (cfg : Config) (clock : ℕ) (s : Sample) (outcome : Delivery) (a : AutoDrain)
    → (tick d cfg clock s outcome a).1 ≢ []
    → (a.notified ≡ true)
      × (is_awaiting a.state ≡ true)
      × (a.deadline ≤ (stamp clock s).now)
      × Executable cfg (stamp clock s)
unfolding tick
tick_acts_only d cfg clock s outcome a h =
    let r = begin_tick d cfg clock s a in
    let (c, t, x, e, ex) = continue_acts d outcome r.1 r.0 h in
    let (ec, et, n, w, l) = begin_tick-execute d cfg clock s a e in
    (n, w, l, subst₂ Executable ec et ex)

-- A tick at or after the deadline of a pending prompt whose warning is marked as sent runs the
-- sequence, if settings and sample allow it then: the executor that the settings pick performs the
-- plan, the answer is recorded as a timeout, and the state is TIMEOUT.
pub tick_timeout :
    (d : Deps) (cfg : Config) (clock : ℕ) (s : Sample) (outcome : Delivery) (a : AutoDrain)
    → a.notified ≡ true
    → is_awaiting a.state ≡ true
    → a.deadline ≤ (stamp clock s).now
    → Executable cfg s
    → let r = tick d cfg clock s outcome a in
      (r.1 ≡ (drain_sync_power_off (some (pick_executor d cfg))).0)
      × (r.0.state ≡ timeout)
      × (r.0.last_response ≡ some timed_out)
unfolding tick begin_tick is_awaiting run_execute begin_execute execute_block_reason end_execute
tick_timeout d cfg clock s outcome a n w l e = ground arith

-- A tick before the deadline of a pending prompt whose warning is marked as sent acts on nothing and
-- goes on waiting for the same deadline, while the pack discharges off AC and the smart drain is
-- enabled.
pub tick_waits :
    (d : Deps) (cfg : Config) (clock : ℕ) (s : Sample) (outcome : Delivery) (a : AutoDrain)
    → a.notified ≡ true
    → is_awaiting a.state ≡ true
    → (stamp clock s).now < a.deadline
    → cfg.auto_drain.enabled ≡ true
    → s.discharging ≡ true
    → s.source ≢ ac
    → let r = tick d cfg clock s outcome a in
      (r.1 ≡ [])
      × (r.0.state ≡ awaiting_response)
      × (r.0.deadline ≡ a.deadline)
      × (r.0.notified ≡ true)
unfolding tick begin_tick is_awaiting
tick_waits d cfg clock s outcome a n w l e x y = ground arith
