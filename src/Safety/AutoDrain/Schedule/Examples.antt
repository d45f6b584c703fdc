-- ===== src/Safety/AutoDrain/Schedule/Examples.antt =====
-- A schedule of the smart drain: a warning, the deadline, and the sequence that follows.
use lap_guard.Base.{◌≤◌, ◌≡◌, refl, true, [], All, ◌+ℤ◌, text_eq, to_lower, trim_space, ◌*◌}
use lap_guard.Config.{provider_configured, allows_provider, manual_actions_ready}
use lap_guard.Safety.Executor.{host}
use lap_guard.Safety.AutoDrain.{
  delivered, timed_out, start_block_reason, notification_ready_reason, recovered, pick_executor,
  execute_block_reason,
}
use lap_guard.Safety.AutoDrain.Handlers.{begin_tick, end_send, begin_execute, sent_ok}
use lap_guard.Safety.AutoDrain.Examples.{armed, deps, at_time, minute}
use lap_guard.Safety.AutoDrain.Schedule.{
  World, start, Take, here, ticked, warned, begun, drained, Reach, begin, next, tick, warning_back,
  begin_sequence, sequence_back, sending, executes, draining,
}
use lap_guard.Safety.AutoDrain.Schedule.Invariant.{launches-le-sent}
use lap_guard.Safety.AutoDrain.Schedule.Gates.{commands_gated, RanGated}

abbrev low : World
low = ticked deps armed 0 (at_time minute) start

low-sends : Take (sending armed (at_time minute)) low.tasks []
unfolding begin_tick start_block_reason notification_ready_reason provider_configured
    allows_provider recovered text_eq trim_space to_lower ◌+ℤ◌ start
low-sends = here

abbrev warned_once : World
warned_once = warned armed (at_time minute) delivered [] low

abbrev expired : World
expired = ticked deps armed 0 (at_time (12 * minute)) warned_once

expired-executes : Take (executes armed (at_time (12 * minute)) timed_out) expired.tasks []
unfolding begin_tick start_block_reason notification_ready_reason provider_configured
    allows_provider recovered text_eq trim_space to_lower ◌+ℤ◌ start end_send
expired-executes = here

abbrev under_way : World
under_way = begun deps armed (at_time (12 * minute)) timed_out [] expired

under_way-drains : Take (draining armed (host true true true)) under_way.tasks []
unfolding begin_tick start_block_reason notification_ready_reason provider_configured
    allows_provider recovered text_eq trim_space to_lower ◌+ℤ◌ start end_send begin_execute
    execute_block_reason pick_executor manual_actions_ready
under_way-drains = here

abbrev done : World
done = drained armed (host true true true) [] under_way

done-Reach : Reach deps done
done-Reach =
    next
      (next
        (next
          (next (next begin (tick start armed 0 (at_time minute)))
            (warning_back low armed (at_time minute) delivered [] low-sends))
          (tick warned_once armed 0 (at_time (12 * minute))))
        (begin_sequence expired armed (at_time (12 * minute)) timed_out [] expired-executes))
      (sequence_back under_way armed (host true true true) [] under_way-drains)

launched_once : (done.launches ≡ 1) × (done.sent ≡ 1)
unfolding begin_tick start_block_reason notification_ready_reason provider_configured
    allows_provider recovered text_eq trim_space to_lower ◌+ℤ◌ start end_send begin_execute
    execute_block_reason sent_ok pick_executor manual_actions_ready
launched_once = (refl, refl)

launches-le-sent_example : done.launches ≤ done.sent
launches-le-sent_example = launches-le-sent done-Reach

commands_gated_example : All RanGated done.log
commands_gated_example = commands_gated refl done-Reach
