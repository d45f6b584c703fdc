-- ===== src/Safety/AutoDrain/Schedule/Invariant.antt =====
-- What every interleaving of the smart drain keeps: a delivered warning pays for one sequence.
use lap_guard.Base.{
  ℕ, ◌+◌, ◌≤◌, ◌≡◌, refl, false, Option, some, List, [], ◌∷◌, arith, ◌&&◌, if◌then◌else◌,
}
use lap_guard.Config.{Config}
use lap_guard.Safety.{Sample}
use lap_guard.Safety.Executor.{ExecError, drain_sync_power_off}
use lap_guard.Safety.AutoDrain.{
  AutoDrain, idle, warning_sent, Deps, Response, Delivery, Reason, is_awaiting, reset_to_idle,
}
use lap_guard.Safety.AutoDrain.Handlers.{
  begin_tick, begin_execute, begin_respond, end_send, end_execute, sent_ok,
}
use lap_guard.Safety.AutoDrain.Schedule.{
  spawn, spawn_ok, spawn_launch, count_launch, count_sent, Task, sending, executes, draining, World,
  start, Take, here, there, Step, tick, respond, reset, warning_back, begin_sequence, sequence_back,
  Reach, begin, next,
}

-- The sequences that are decided and not begun.
abbrev due : Task → ℕ
due (executes cfg s trigger) = 1
due (sending cfg s) = 0
due (draining cfg e) = 0

dues : List Task → ℕ
dues [] = 0
dues (t ∷ ts) = due t + dues ts

dues-Take : {t : Task} {ts rest : List Task} → Take t ts rest → dues ts ≡ due t + dues rest
unfolding dues
dues-Take here = refl
dues-Take {t} (there {u} k) = omega (arith, dues-Take k)

-- A prompt that may still be answered.
prompt : AutoDrain → ℕ
prompt a = if a.notified && is_awaiting a.state then 1 else 0

record DrainInv (a : AutoDrain) : Type 0 where
  at_rest : a.state ≡ idle → a.notified ≡ false
  while_sending : a.state ≡ warning_sent → a.notified ≡ false

record Inv (w : World) : Type 0 where
  drain : DrainInv w.drain
  paid : w.launches + dues w.tasks + prompt w.drain ≤ w.sent

begin_tick-Inv :
    (d : Deps) (cfg : Config) (clock : ℕ) (s : Sample) (a : AutoDrain) (ts : List Task)
    → DrainInv a
    → let r = begin_tick d cfg clock s a in
      DrainInv r.0 × (dues (spawn r.1 ts) + prompt r.0 ≤ dues ts + prompt a)
unfolding begin_tick dues prompt is_awaiting reset_to_idle
begin_tick-Inv d cfg clock s a ts v = ground arith

begin_respond-Inv :
    (cfg : Config) (clock : ℕ) (answer : Response) (a : AutoDrain) (ts : List Task)
    → DrainInv a
    → let r = begin_respond cfg clock answer a in
      DrainInv r.0 × (dues (spawn_ok r.1 ts) + prompt r.0 ≤ dues ts + prompt a)
unfolding begin_respond dues prompt is_awaiting reset_to_idle
begin_respond-Inv cfg clock answer a ts v = ground arith

begin_execute-Inv :
    (d : Deps) (cfg : Config) (s : Sample) (trigger : Response) (a : AutoDrain) (ts : List Task)
    (n : ℕ)
    → DrainInv a
    → let r = begin_execute d cfg s trigger a in
      DrainInv r.0
      × (dues (spawn_launch r.1 ts) ≡ dues ts)
      × (count_launch r.1 n + prompt r.0 ≤ n + 1 + prompt a)
unfolding begin_execute dues prompt is_awaiting
begin_execute-Inv d cfg s trigger a ts n v = ground arith

end_send-Inv :
    (cfg : Config) (s : Sample) (outcome : Delivery) (a : AutoDrain) (n : ℕ)
    → DrainInv a
    → let a' = end_send cfg s outcome a in
      DrainInv a' × (prompt a' + n ≤ count_sent (sent_ok outcome) n + prompt a)
unfolding end_send prompt is_awaiting reset_to_idle
end_send-Inv cfg s outcome a n v = ground arith

reset-Inv :
    (r : Reason) (a : AutoDrain) → DrainInv (reset_to_idle r a) × (prompt (reset_to_idle r a) ≡ 0)
unfolding reset_to_idle prompt
reset-Inv r a = ground arith

end_execute-Inv :
    (cfg : Config) (x : Option ExecError) (a : AutoDrain)
    → DrainInv a
    → DrainInv (end_execute cfg x a) × (prompt (end_execute cfg x a) ≡ prompt a)
unfolding end_execute prompt
end_execute-Inv cfg x a v = ground arith

start-Inv : Inv start
unfolding start prompt dues
start-Inv = ground arith

Step-Inv : {d : Deps} {u v : World} → Step d u v → Inv u → Inv v
Step-Inv {d} (tick w cfg clock s) i =
    let (v, p) = begin_tick-Inv d cfg clock s w.drain w.tasks i.drain in
    record { drain = v; paid = omega (arith, i.paid) }
Step-Inv (respond w cfg clock answer) i =
    let (v, p) = begin_respond-Inv cfg clock answer w.drain w.tasks i.drain in
    record { drain = v; paid = omega (arith, i.paid) }
Step-Inv (reset w r) i =
    let (v, p) = reset-Inv r w.drain in record { drain = v; paid = omega (arith, i.paid) }
Step-Inv (warning_back w cfg s outcome rest k) i =
    let (v, p) = end_send-Inv cfg s outcome w.drain w.sent i.drain in
    let e = dues-Take k in record { drain = v; paid = omega (arith, i.paid) }
Step-Inv {d} (begin_sequence w cfg s trigger rest k) i =
    let (v, q, p) = begin_execute-Inv d cfg s trigger w.drain rest w.launches i.drain in
    let e = dues-Take k in record { drain = v; paid = omega (arith, i.paid) }
Step-Inv (sequence_back w cfg e rest k) i =
    let (v, p) = end_execute-Inv cfg (drain_sync_power_off (some e)).1 w.drain i.drain in
    let q = dues-Take k in record { drain = v; paid = omega (arith, i.paid) }

Reach-Inv : {d : Deps} {w : World} → Reach d w → Inv w
Reach-Inv begin = start-Inv
Reach-Inv (next r s) = Step-Inv s (Reach-Inv r)

-- Whatever calls interleave, no more sequences begin than warnings came back without an error: a
-- sequence needs a warning, and no warning pays for two.
pub launches-le-sent : {d : Deps} {w : World} → Reach d w → w.launches ≤ w.sent
launches-le-sent r = omega (arith, (Reach-Inv r).paid)
