-- ===== src/Discovery/Scanner/Primary.antt =====
-- Which battery is taken for the main one.
use lap_guard.Base.{
  ◌≡◌, ◌⊎◌, inl, inr, refl, Bool, true, false, ◌&&◌, Option, none, some, List, [], ◌∷◌, codes,
  text_eq, arith, Any, All, if◌then◌else◌,
}
use lap_guard.Discovery.Scanner.{Supply, first_present, or_else, first, pick_primary_battery}

-- A choice among batteries, each of them satisfying `P` where it is made and none where it is not.
abbrev IsChoice : (Supply → Bool) → List Supply → Option Supply → Type 0
IsChoice p bats none = All (λ b. p b ≡ false) bats
IsChoice p bats (some b) = Any (λ c. c ≡ b) bats × (p b ≡ true)

abbrev is_bat0 : Supply → Bool
is_bat0 b = text_eq b.name (codes "BAT0") && b.present

choose-IsChoice :
    (p : Supply → Bool) (b : Supply) (bats : List Supply) (o : Option Supply) (taken : Bool)
    → p b ≡ taken
    → IsChoice p bats o
    → IsChoice p (b ∷ bats) (if taken then some b else o)
choose-IsChoice p b bats o true h rest = (inl refl, h)
choose-IsChoice p b bats none false h rest = (h, rest)
choose-IsChoice p b bats (some c) false h (found, good) = (inr found, good)

first_bat0-IsChoice :
    (bats : List Supply) → IsChoice is_bat0 bats (first_present (some (codes "BAT0")) bats)
unfolding first_present
first_bat0-IsChoice [] = tt
first_bat0-IsChoice (b ∷ bats) =
    choose-IsChoice is_bat0 b bats _ (is_bat0 b) refl (first_bat0-IsChoice bats)

first_present-IsChoice :
    (bats : List Supply) → IsChoice (λ b. b.present) bats (first_present none bats)
unfolding first_present
first_present-IsChoice [] = tt
first_present-IsChoice (b ∷ bats) =
    choose-IsChoice (λ c. c.present) b bats _ b.present refl (first_present-IsChoice bats)

-- The main battery of a machine.
abbrev pub IsPrimary : List Supply → Option Supply → Type 0
IsPrimary bats none = bats ≡ []
IsPrimary bats (some b) =
    Any (λ c. c ≡ b) bats
    × ((b.present ≡ true) ⊎ All (λ c. c.present ≡ false) bats)
    × ((is_bat0 b ≡ true) ⊎ All (λ c. is_bat0 c ≡ false) bats)

bat0_present : (b : Supply) → is_bat0 b ≡ true → b.present ≡ true
bat0_present b h = ground arith

first-IsPrimary :
    (bats : List Supply)
    → All (λ c. c.present ≡ false) bats
    → All (λ c. is_bat0 c ≡ false) bats
    → IsPrimary bats (first bats)
first-IsPrimary [] absent other = refl
first-IsPrimary (b ∷ bats) absent other = (inl refl, inr absent, inr other)

present-IsPrimary :
    (bats : List Supply) (o : Option Supply)
    → IsChoice (λ b. b.present) bats o
    → All (λ c. is_bat0 c ≡ false) bats
    → IsPrimary bats (or_else o (first bats))
present-IsPrimary bats none absent other = first-IsPrimary bats absent other
present-IsPrimary bats (some b) (found, here) other = (found, inl here, inr other)

bat0-IsPrimary :
    (bats : List Supply) (o : Option Supply)
    → IsChoice is_bat0 bats o
    → IsPrimary bats (or_else o (or_else (first_present none bats) (first bats)))
bat0-IsPrimary bats none other =
    present-IsPrimary bats (first_present none bats) (first_present-IsChoice bats) other
bat0-IsPrimary bats (some b) (found, good) = (found, inl (bat0_present b good), inl good)

-- The main battery that the discovery picks is one of those found; it is present if any is, and it
-- is BAT0 if that is present; none is picked only where there is none.
pub pick_primary_battery-IsPrimary :
    (bats : List Supply) → IsPrimary bats (pick_primary_battery bats)
unfolding pick_primary_battery
pick_primary_battery-IsPrimary bats =
    bat0-IsPrimary bats (first_present (some (codes "BAT0")) bats) (first_bat0-IsChoice bats)
