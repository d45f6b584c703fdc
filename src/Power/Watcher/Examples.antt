-- ===== src/Power/Watcher/Examples.antt =====
-- A run of the watcher: AC at the baseline, a flap, and an outage of half a minute.
use lap_guard.Base.{
  ℕ, ◌*◌, ◌≡◌, ◌≢◌, refl, ℤ, pos, sub_ℕ, ◌≤ℤ◌, true, none, some, Option, List, [], ◌∷◌,
}
use lap_guard.Power.{Source, ac, battery, Snapshot, event_type, ac_disconnected}
use lap_guard.Power.Watcher.{Watcher, Transition, new_watcher, tick, evaluate, run}
use lap_guard.Power.Watcher.Debounce.{SteadySince, Reach, start, poll, tick_debounced}

abbrev seconds : ℕ → ℕ
seconds n = n * 1_000_000_000

abbrev reading : Source → Snapshot
reading s = record {
  timestamp = 0;
  source = s;
  adapters = [];
  power_loss_detection = true;
  reason = none;
}

abbrev polls : List (ℕ × Snapshot)
polls =
    (seconds 1, reading ac)
    ∷ (seconds 6, reading battery)
    ∷ (seconds 11, reading ac)
    ∷ (seconds 16, reading battery)
    ∷ (seconds 21, reading battery)
    ∷ (seconds 26, reading battery)
    ∷ (seconds 31, reading ac)
    ∷ (seconds 41, reading ac)
    ∷ []

abbrev kinds : List Transition → List (Source × Option ℕ)
kinds [] = []
kinds (t ∷ ts) = (t.to, t.duration_ms) ∷ kinds ts

-- The flap at second 6 is not a transition; the outage lasts from second 26 to second 41.
outage :
    kinds (run (new_watcher (pos 10_000_000_000)) polls []).1
    ≡ (ac, some 15_000) ∷ (battery, none) ∷ []
unfolding run new_watcher tick evaluate
outage = refl

abbrev ten : ℤ
ten = pos 10_000_000_000

-- On AC at second 1, and on battery at second 16.
abbrev waiting_watcher : Watcher
waiting_watcher =
    (tick (tick (new_watcher ten) (seconds 1) (reading ac)).0 (seconds 16) (reading battery)).0

on_battery :
    Reach ten waiting_watcher ((seconds 16, reading battery) ∷ (seconds 1, reading ac) ∷ [])
on_battery =
    poll (seconds 16) (reading battery) (poll (seconds 1) (reading ac) start (λ e. cc)) (λ e. cc)

abbrev outage_begins : Transition
outage_begins = record {
  kind = ac_disconnected;
  at = seconds 26;
  from = ac;
  to = battery;
  duration_ms = none;
  snapshot = record (reading battery) { timestamp = seconds 26 };
}

outage_emitted : (tick waiting_watcher (seconds 26) (reading battery)).1 ≡ some outage_begins
unfolding tick evaluate new_watcher event_type
outage_emitted = refl

tick_debounced_example :
    (since : ℕ) × SteadySince battery since
      ((seconds 26, reading battery) ∷ (seconds 16, reading battery) ∷ (seconds 1, reading ac) ∷ [])
    × (waiting_watcher.debounce ≤ℤ sub_ℕ (seconds 26) since)
    × (pos 1 ≤ℤ waiting_watcher.debounce)
    × (outage_begins.from ≢ outage_begins.to)
    × (outage_begins.kind ≡ event_type outage_begins.to)
tick_debounced_example =
    tick_debounced on_battery (seconds 26) (reading battery) (λ e. cc) outage_emitted
