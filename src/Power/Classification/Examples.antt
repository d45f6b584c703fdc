-- ===== src/Power/Classification/Examples.antt =====
-- Scans of a power_supply directory, and the theorem on their classification.
use lap_guard.Base.{
  ◌≡◌, ◌≢◌, ◌↔◌, ◌⊎◌, refl, true, false, none, some, List, [], ◌∷◌, Any, All, codes, text_eq,
  trim_space, to_lower,
}
use lap_guard.Power.{Adapter, Entry, ac, battery, unknown, classify, scan}
use lap_guard.Power.Classification.{IsOnline, IsOffline, classify_lem}

-- Two adapters, one offline and one whose file is malformed, and a battery.
abbrev entries : List Entry
entries =
    record { name = codes "AC"; kind = codes "Mains\n"; online_file = some (codes "0\n") }
    ∷ record { name = codes "AC1"; kind = codes "mains"; online_file = some (codes "?") }
    ∷ record { name = codes "BAT0"; kind = codes "Battery"; online_file = none }
    ∷ []

scan_malformed : (scan 7 (some entries)).source ≡ unknown
unfolding scan text_eq trim_space to_lower
scan_malformed = refl

abbrev adapters : List Adapter
adapters =
    record { name = codes "AC"; online = some false; readable = true }
    ∷ record { name = codes "AC1"; online = some true; readable = true }
    ∷ []

classify_lem_example :
    ((classify adapters).0 ≡ ac ↔ Any IsOnline adapters)
    × ((classify adapters).0 ≡ battery ↔ ((adapters ≢ []) × All IsOffline adapters))
    × (((classify adapters).0 ≡ ac)
        ⊎ ((classify adapters).0 ≡ battery)
        ⊎ ((classify adapters).0 ≡ unknown))
classify_lem_example = classify_lem adapters
