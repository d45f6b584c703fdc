-- ===== src/Power/Watcher.antt =====
-- The watcher of internal/power/watcher.go: a poll, its debounce, and the transitions it emits.
-- A time is a number of nanoseconds, 0 for Go's zero time; a duration is an integer.
mod Debounce
mod Chain
mod Examples
use lap_guard.Base.{
  ℕ, suc, ◌/◌, ltb, leb, ◌==◌, ℤ, pos, negsuc, sub_ℕ, ltb_ℤ, leb_ℤ, Bool, true, false, ◌&&◌, not,
  Option, none, some, List, [], ◌∷◌, if◌then◌else◌,
}
use lap_guard.Power.{Source, ac, unset, source_eq, EventType, event_type, Snapshot}

pub record Transition : Type 0 where
  pub kind : EventType
  pub at : ℕ
  pub from : Source
  pub to : Source
  pub duration_ms : Option ℕ
  pub snapshot : Snapshot

pub record Watcher : Type 0 where
  pub debounce : ℤ
  pub running : Bool
  pub baselined : Bool
  pub committed : Source
  pub pending : Source
  pub pending_since : ℕ
  pub last_poll : ℕ
  pub last_snap : Option Snapshot
  pub last_off_ac : ℕ

abbrev pub default_debounce : ℤ
default_debounce = pos 10_000_000_000

-- `NewWatcher`, as far as its state goes.
pub new_watcher : ℤ → Watcher
new_watcher debounce = record {
  debounce = if leb_ℤ debounce (pos 0) then default_debounce else debounce;
  running = false;
  baselined = false;
  committed = unset;
  pending = unset;
  pending_since = 0;
  last_poll = 0;
  last_snap = none;
  last_off_ac = 0;
}

-- `Milliseconds()` of a duration, and 0 where that is negative.
abbrev to_ms : ℤ → ℕ
to_ms (pos n) = n / 1_000_000
to_ms (negsuc n) = 0

is_ac : Source → Bool
is_ac s = source_eq s ac

-- How long the machine was off AC, for a return to AC.
outage_ms : Watcher → ℕ → Source → Option ℕ
unfolding is_ac
outage_ms w now src =
    if not (is_ac w.committed) && is_ac src && not (w.last_off_ac == 0)
    then some (to_ms (sub_ℕ now w.last_off_ac))
    else none

-- The end of `evaluateLocked`: the debounced change is committed.
commit : Watcher → ℕ → Snapshot → Watcher × Option Transition
unfolding outage_ms is_ac
commit w now snap =
    let src = snap.source in
    (
      record w {
        committed = src;
        pending = unset;
        pending_since = 0;
        last_off_ac = if is_ac src then w.last_off_ac else now;
      },
      some (record {
        kind = event_type src;
        at = now;
        from = w.committed;
        to = src;
        duration_ms = outage_ms w now src;
        snapshot = snap;
      }),
    )

-- The debounce, once the pending source is the one that was read.
settle : Watcher → ℕ → Snapshot → Watcher × Option Transition
unfolding commit
settle w now snap =
    if ltb_ℤ (pos 0) w.debounce && ltb_ℤ (sub_ℕ now w.pending_since) w.debounce
    then (w, none)
    else commit w now snap

changed : Watcher → ℕ → Snapshot → Watcher × Option Transition
unfolding settle
changed w now snap =
    if source_eq w.pending snap.source
    then settle w now snap
    else (let w' = record w { pending = snap.source; pending_since = now } in
        if ltb_ℤ (pos 0) w.debounce then (w', none) else settle w' now snap)

pub evaluate : Watcher → ℕ → Snapshot → Watcher × Option Transition
unfolding changed is_ac
evaluate w0 now snap =
    let w = record w0 { last_poll = now; last_snap = some snap } in
    let src = snap.source in
    if not w.baselined
    then (
      record w {
        committed = src;
        baselined = true;
        pending = unset;
        last_off_ac = if is_ac src then w.last_off_ac else now;
      },
      none,
    )
    else if source_eq src w.committed
    then (record w { pending = unset; pending_since = 0 }, none)
    else changed w now snap

-- `Tick`: what the adapters say is stamped with the time of the poll.
pub tick : Watcher → ℕ → Snapshot → Watcher × Option Transition
tick w now snap = evaluate w now (record snap { timestamp = now })

-- `Status().PendingSource`, where there is one.
pub pending_source : Watcher → Option Source
pending_source w =
    if not (source_eq w.pending unset) && not (source_eq w.pending w.committed)
    then some w.pending
    else none

abbrev consed : Option Transition → List Transition → List Transition
consed none ts = ts
consed (some t) ts = t ∷ ts

-- The polls of `Run`, oldest first: the watcher they leave and the transitions, newest first.
pub run : Watcher → List (ℕ × Snapshot) → List Transition → Watcher × List Transition
run w [] out = (w, out)
run w ((now, snap) ∷ rest) out = let (w', tr) = tick w now snap in run w' rest (consed tr out)
