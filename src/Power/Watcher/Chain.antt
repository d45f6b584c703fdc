-- ===== src/Power/Watcher/Chain.antt =====
-- The transitions of a run of the watcher link up.
use lap_guard.Base.{ℕ, ◌≡◌, ◌≢◌, ◌⊎◌, inr, refl, ℤ, true, List, [], ◌∷◌, arith}
use lap_guard.Power.{Source, Snapshot}
use lap_guard.Power.Watcher.{Watcher, Transition, new_watcher, tick, evaluate, run, consed}

-- Newest first: each transition leads to where the next one starts, and the last to `s`.
abbrev pub Linked : Source → List Transition → Type 0
Linked s [] = Unit
Linked s (t ∷ ts) = (t.to ≡ s) × (t.from ≢ t.to) × Linked t.from ts

abbrev Good : Watcher → List Transition → Type 0
Good w out = ((w.baselined ≡ true) ⊎ (out ≡ [])) × Linked w.committed out

tick-Good :
    (w : Watcher) (now : ℕ) (snap : Snapshot) (out : List Transition)
    → Good w out
    → Good (tick w now snap).0 (consed (tick w now snap).1 out)
unfolding tick evaluate
tick-Good w now snap out g = ground arith

run-Good :
    (w : Watcher) (polls : List (ℕ × Snapshot)) (out : List Transition)
    → Good w out
    → Good (run w polls out).0 (run w polls out).1
unfolding run
run-Good w [] out g = g
run-Good w ((now, snap) ∷ rest) out g =
    run-Good (tick w now snap).0 rest (consed (tick w now snap).1 out) (tick-Good w now snap out g)

-- In any run of a new watcher each transition starts where the one before it ended, the last one
-- ends in the committed source, and none leads from a source to itself.
pub run-Linked :
    (d : ℤ) (polls : List (ℕ × Snapshot))
    → let r = run (new_watcher d) polls [] in Linked r.0.committed r.1
run-Linked d polls = (run-Good (new_watcher d) polls [] (inr refl, tt)).1
