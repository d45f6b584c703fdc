-- ===== src/Power/Classification.antt =====
-- What `Classify` of internal/power/state.go answers, by the adapters alone.
mod Examples
use lap_guard.Base.{
  ℕ, suc, ◌+◌, ◌<◌, ◌≡◌, ◌↔◌, ◌⊎◌, ◌≢◌, inl, inr, refl, Bool, true, false, ◌&&◌, ◌||◌, Option, none,
  some, List, [], ◌∷◌, arith, All, Any, Bool-cases, ltb, if◌then◌else◌,
}
use lap_guard.Power.{
  Adapter, Source, ac, battery, unknown, unset, classify, survey, verdict, is_online, is_unreadable,
}

-- An adapter whose `online` file said 1, and one whose file said 0.
abbrev pub IsOnline : Adapter → Type 0
IsOnline a = (a.readable ≡ true) × (a.online ≡ some true)

abbrev pub IsOffline : Adapter → Type 0
IsOffline a = (a.readable ≡ true) × (a.online ≡ some false)

any_online : List Adapter → Bool
any_online [] = false
any_online (a ∷ rest) = is_online a || any_online rest

count_unreadable : List Adapter → ℕ
count_unreadable [] = 0
count_unreadable (a ∷ rest) = let n = count_unreadable rest in if is_unreadable a then suc n else n

survey-online : (b : Bool) (n : ℕ) (xs : List Adapter) → (survey b n xs).0 ≡ (b || any_online xs)
unfolding survey any_online
survey-online b n [] = ground arith
survey-online b n (a ∷ rest) =
    ground (arith, survey-online (b || is_online a) (if is_unreadable a then suc n else n) rest)

survey-unreadable :
    (b : Bool) (n : ℕ) (xs : List Adapter) → (survey b n xs).1 ≡ n + count_unreadable xs
unfolding survey count_unreadable
survey-unreadable b n [] = omega arith
survey-unreadable b n (a ∷ rest) =
    ground (arith, survey-unreadable (b || is_online a) (if is_unreadable a then suc n else n) rest)

any_online_iff : (xs : List Adapter) → (any_online xs ≡ true) ↔ Any IsOnline xs
unfolding any_online is_online
any_online_iff [] = (λ h. cc, λ h. absurd h)
any_online_iff (a ∷ rest) =
    let (to, from) = any_online_iff rest in (λ h. ground (arith, to), λ h. ground (arith, from))

quiet_iff :
    (xs : List Adapter) → ((any_online xs ≡ false) × (count_unreadable xs ≡ 0)) ↔ All IsOffline xs
unfolding any_online is_online count_unreadable is_unreadable
quiet_iff [] = (λ h. tt, λ h. (refl, refl))
quiet_iff (a ∷ rest) =
    let (to, from) = quiet_iff rest in (λ h. ground (arith, to), λ h. ground (arith, from))

-- The three answers, by what the survey counted.
answer : Bool → ℕ → Source
answer b n = if b then ac else if ltb 0 n then unknown else battery

answer-lem :
    (b : Bool) (n : ℕ)
    → ((answer b n ≡ ac) ↔ (b ≡ true))
      × ((answer b n ≡ battery) ↔ ((b ≡ false) × (n ≡ 0)))
      × ((answer b n ≡ ac) ⊎ (answer b n ≡ battery) ⊎ (answer b n ≡ unknown))
unfolding answer
answer-lem b n =
    ((λ h. ground arith, λ h. ground arith), (λ h. ground arith, λ h. ground arith), ground arith)

classify-answer :
    (a : Adapter) (rest : List Adapter)
    → (classify (a ∷ rest)).0 ≡ answer (any_online (a ∷ rest)) (count_unreadable (a ∷ rest))
unfolding classify verdict answer
classify-answer a rest =
    ground (arith, survey-online false 0 (a ∷ rest), survey-unreadable false 0 (a ∷ rest))

classify-nil :
    ((classify []).0 ≡ ac ↔ Any IsOnline [])
    × ((classify []).0 ≡ battery ↔ ((◌≢◌ {A = List Adapter} [] []) × All IsOffline []))
    × (((classify []).0 ≡ ac) ⊎ ((classify []).0 ≡ battery) ⊎ ((classify []).0 ≡ unknown))
unfolding classify
classify-nil = ((λ h. cc, λ h. absurd h), (λ h. cc, λ h. absurd (h.0 refl)), inr (inr refl))

-- The machine is on AC exactly when some adapter was read as online, and on battery exactly when
-- there is an adapter and every one was read as offline; otherwise the source is unknown.
pub classify_lem :
    (xs : List Adapter)
    → ((classify xs).0 ≡ ac ↔ Any IsOnline xs)
      × ((classify xs).0 ≡ battery ↔ ((xs ≢ []) × All IsOffline xs))
      × (((classify xs).0 ≡ ac) ⊎ ((classify xs).0 ≡ battery) ⊎ ((classify xs).0 ≡ unknown))
classify_lem [] = classify-nil
classify_lem (a ∷ rest) =
    let (on, on') = any_online_iff (a ∷ rest) in
    let (off, off') = quiet_iff (a ∷ rest) in
    let (is_ac, is_battery, three) =
      answer-lem (any_online (a ∷ rest)) (count_unreadable (a ∷ rest)) in
    rw (classify-answer a rest) (
      (λ h. on (is_ac.0 h), λ h. is_ac.1 (on' h)),
      (λ h. ((λ e. cc), off (is_battery.0 h)), λ h. is_battery.1 (off' h.1)),
      three,
    )
