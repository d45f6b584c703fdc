-- ===== src/Safety/AutoDrain/Calls/Examples.antt =====
-- The smart drain at a battery of 8 percent: a prompt, its answers and its timeout.
use lap_guard.Base.{
  ◌+ℤ◌, trim_space, to_lower, text_eq, ◌*◌, ◌≤◌, ◌≡◌, ◌≢◌, refl, pos, true, none, some, List, [],
  ◌∷◌, arith, codes, All, ok,
}
use lap_guard.Config.{
  Config, allows_provider, provider_configured, manual_actions_ready, stop_docker, sync, power_off,
}
use lap_guard.Safety.{stamp}
use lap_guard.Safety.Executor.{executed, Effect, drain_sync_power_off}
use lap_guard.Safety.AutoDrain.{
  notification_ready_reason, start_block_reason, AutoDrain, delivered, new, awaiting_response,
  timeout, timed_out, aborted, executing, no_response, yes_response, is_awaiting, pick_executor,
  execute_block_reason, recovered,
}
use lap_guard.Safety.AutoDrain.Handlers.{end_send, begin_execute, begin_tick, parse_action}
use lap_guard.Safety.AutoDrain.Examples.{armed, deps, at_time, minute}
use lap_guard.Safety.AutoDrain.Calls.{tick, respond}
use lap_guard.Safety.AutoDrain.Calls.Laws.{Executable, tick_acts_only, tick_timeout}
use lap_guard.Safety.AutoDrain.Calls.Answers.{respond_yes, aborted_stays, runs, StaysLow, TickInput}

abbrev prompted : AutoDrain
prompted = record new {
  state = awaiting_response;
  notified = true;
  notified_at = minute;
  deadline = 11 * minute;
  last_sample = at_time minute;
}

is-awaiting : is_awaiting prompted.state ≡ true
unfolding is_awaiting
is-awaiting = refl

abbrev executed_plan : List Effect
executed_plan = executed stop_docker ∷ executed sync ∷ executed power_off ∷ []

prompt_starts :
    let a = (tick deps armed 0 (at_time minute) delivered new).0 in
    (a.state ≡ awaiting_response) × (a.deadline ≡ 11 * minute)
unfolding tick begin_tick start_block_reason notification_ready_reason provider_configured
    allows_provider recovered end_send text_eq trim_space to_lower ◌+ℤ◌
prompt_starts = (refl, refl)

late-Executable : Executable armed (at_time (12 * minute))
late-Executable = record {
  enabled = refl;
  stop_enabled = refl;
  discharging = refl;
  off_ac = λ e. cc;
  low = (pos 8, refl, omega arith);
}

tick_timeout_example :
    let r = tick deps armed 0 (at_time (12 * minute)) delivered prompted in
    (r.1 ≡ (drain_sync_power_off (some (pick_executor deps armed))).0)
    × (r.0.state ≡ timeout)
    × (r.0.last_response ≡ some timed_out)
tick_timeout_example =
    tick_timeout deps armed 0 (at_time (12 * minute)) delivered prompted refl is-awaiting
      (omega arith) late-Executable

late_plan : (tick deps armed 0 (at_time (12 * minute)) delivered prompted).1 ≡ executed_plan
unfolding tick begin_tick ◌+ℤ◌ recovered begin_execute execute_block_reason pick_executor
    manual_actions_ready drain_sync_power_off
late_plan = refl

late_acts : (tick deps armed 0 (at_time (12 * minute)) delivered prompted).1 ≢ []
late_acts e = cc (late_plan, e)

tick_acts_only_example :
    (prompted.notified ≡ true)
    × (is_awaiting prompted.state ≡ true)
    × (prompted.deadline ≤ (stamp 0 (at_time (12 * minute))).now)
    × Executable armed (stamp 0 (at_time (12 * minute)))
tick_acts_only_example =
    tick_acts_only deps armed 0 (at_time (12 * minute)) delivered prompted late_acts

says_no : parse_action (codes " No ") ≡ some no_response
unfolding parse_action text_eq to_lower trim_space
says_no = refl

says_yes : parse_action (codes "YES") ≡ some yes_response
unfolding parse_action text_eq to_lower trim_space
says_yes = refl

respond_yes_example :
    let r = respond deps armed 0 (codes "YES") prompted in
    (r.0.state ≡ executing)
    × (execute_block_reason true armed (stamp 0 prompted.last_sample) ≡ none
        → r.1 ≡ ok (drain_sync_power_off (some (pick_executor deps armed))).0)
    × (execute_block_reason true armed (stamp 0 prompted.last_sample) ≢ none → r.1 ≡ ok [])
respond_yes_example = respond_yes deps armed 0 (codes "YES") prompted says_yes is-awaiting refl

-- The settings at the second tick have another threshold.
abbrev lowered : Config
lowered = record armed {
  auto_drain = record armed.auto_drain { battery_threshold_percent = pos 9 };
}

abbrev later : List TickInput
later =
    (armed, 0, at_time (12 * minute), delivered)
    ∷ (lowered, 0, at_time (13 * minute), delivered)
    ∷ []

later-low : All StaysLow later
unfolding recovered ◌+ℤ◌
later-low = ((refl, refl), ((refl, refl), tt))

aborted_stays_example :
    let r = runs deps later (record prompted { state = aborted }) in
    (r.0.state ≡ aborted) × (r.1 ≡ [])
aborted_stays_example =
    aborted_stays deps later (record prompted { state = aborted }) refl later-low
