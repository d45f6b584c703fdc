-- ===== src/Safety/AutoDrain/Calls.antt =====
-- Whole calls of internal/safety/auto_drain.go that no other call disturbs: Tick, Poll, Respond.
mod Laws
mod Answers
mod Examples
use lap_guard.Base.{ℕ, Bool, Option, none, some, List, [], Text, Result, ok, err}
use lap_guard.Config.{Config}
use lap_guard.Safety.{Sample}
use lap_guard.Safety.Executor.{Effect, drain_sync_power_off}
use lap_guard.Safety.AutoDrain.{AutoDrain, Deps, Delivery, Reason, Response}
use lap_guard.Safety.AutoDrain.Handlers.{
  Next, settled, send, execute, begin_tick, end_send, Launch, blocked, launch, begin_execute,
  end_execute, RespondError, invalid_action, parse_action, begin_respond,
}

-- The rest of `execute` once its sequence is chosen.
pub run_launch : Launch → AutoDrain → AutoDrain × List Effect
run_launch blocked a = (a, [])
run_launch (launch cfg e) a =
    let (effects, problem) = drain_sync_power_off (some e) in (end_execute cfg problem a, effects)

pub run_execute : Deps → Config → Sample → Response → AutoDrain → AutoDrain × List Effect
unfolding run_launch
run_execute d cfg s trigger a = let (a', l) = begin_execute d cfg s trigger a in run_launch l a'

pub continue : Deps → Delivery → Next → AutoDrain → AutoDrain × List Effect
unfolding run_execute
continue d outcome settled a = (a, [])
continue d outcome (send cfg s) a = (end_send cfg s outcome a, [])
continue d outcome (execute cfg s trigger) a = run_execute d cfg s trigger a

-- `Tick`; `outcome` is what the notifier answers, should it be called.
pub tick : Deps → Config → ℕ → Sample → Delivery → AutoDrain → AutoDrain × List Effect
unfolding continue
tick d cfg clock s outcome a =
    let (a', next) = begin_tick d cfg clock s a in continue d outcome next a'

-- `Poll`; `none` is a failed read, or the lack of a reader.
pub poll : Deps → Config → ℕ → Option Sample → Delivery → AutoDrain → AutoDrain × List Effect
poll d cfg clock none outcome a = (a, [])
poll d cfg clock (some s) outcome a = tick d cfg clock s outcome a

abbrev after_respond :
    Deps
    → Delivery
    → AutoDrain × Result RespondError Next
    → AutoDrain × Result RespondError (List Effect)
after_respond d outcome (a, err e) = (a, err e)
after_respond d outcome (a, ok next) =
    let (a', effects) = continue d outcome next a in (a', ok effects)

-- `Respond` on the text of a request.
pub respond : Deps → Config → ℕ → Text → AutoDrain → AutoDrain × Result RespondError (List Effect)
unfolding continue
respond d cfg clock raw a = elim (parse_action raw) [
  | none ↦ (a, err invalid_action)
  | some answer ↦ after_respond d Delivery.refused (begin_respond cfg clock answer a)
]
