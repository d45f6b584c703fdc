-- ===== src/Power/Watcher/Debounce.antt =====
-- The debounce of the watcher: a transition is emitted only after the new source has been read at
-- every poll for the whole debounce.
use lap_guard.Base.{ℕ, ◌≡◌, ◌≢◌, ◌⊎◌, ℤ, pos, sub_ℕ, ◌≤ℤ◌, some, List, [], ◌∷◌, arith}
use lap_guard.Power.{Source, unset, Snapshot, event_type}
use lap_guard.Power.Watcher.{Watcher, Transition, new_watcher, evaluate, tick}

abbrev pub Poll : Type 0
Poll = ℕ × Snapshot

-- The polls, newest first, read `src` from the one at time `since` on.
abbrev pub SteadySince : Source → ℕ → List Poll → Type 0
SteadySince src since [] = ⊥
SteadySince src since ((now, snap) ∷ before) =
    (snap.source ≡ src) × ((now ≡ since) ⊎ SteadySince src since before)

-- The watchers that polls lead to, with those polls, newest first.
pub data Reach (debounce : ℤ) : Watcher → List Poll → Type 0 where
  start : Reach debounce (new_watcher debounce) []
  poll :
      {w : Watcher} {h : List Poll} (now : ℕ) (snap : Snapshot)
      → Reach debounce w h
      → snap.source ≢ unset
      → Reach debounce (tick w now snap).0 ((now, snap) ∷ h)

record Inv (w : Watcher) (h : List Poll) : Type 0 where
  positive : pos 1 ≤ℤ w.debounce
  waiting : (w.pending ≡ unset) ⊎ SteadySince w.pending w.pending_since h

new_watcher-Inv : (d : ℤ) → Inv (new_watcher d) []
unfolding new_watcher
new_watcher-Inv d = ground arith

tick-Inv :
    (w : Watcher) (h : List Poll) (now : ℕ) (snap : Snapshot)
    → snap.source ≢ unset
    → Inv w h
    → Inv (tick w now snap).0 ((now, snap) ∷ h)
unfolding tick evaluate
tick-Inv w h now snap r v = ground arith

Reach-Inv : {d : ℤ} {w : Watcher} {h : List Poll} → Reach d w h → Inv w h
Reach-Inv start = new_watcher-Inv _
Reach-Inv (poll {w} {h} now snap r read) = tick-Inv w h now snap read (Reach-Inv r)

-- A transition of a poll after any polls that each read a source: the polls have all read the new
-- source since a time at least the debounce ago, the debounce is positive, the new source differs
-- from the old one, and the event is named after the new source.
pub tick_debounced :
    {d : ℤ} {w : Watcher} {h : List Poll}
    → Reach d w h
    → (now : ℕ) (snap : Snapshot) {tr : Transition} → snap.source ≢ unset
    → (tick w now snap).1 ≡ some tr
    → (since : ℕ) × SteadySince tr.to since ((now, snap) ∷ h)
      × (w.debounce ≤ℤ sub_ℕ now since)
      × (pos 1 ≤ℤ w.debounce)
      × (tr.from ≢ tr.to)
      × (tr.kind ≡ event_type tr.to)
unfolding tick evaluate
tick_debounced {w} reach now snap {tr} read e =
    let v = Reach-Inv reach in
    (w.pending_since, ground arith, ground arith, v.positive, ground arith, ground arith)
