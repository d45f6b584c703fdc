-- ===== src/Discovery/Scanner/Examples.antt =====
-- A laptop with an absent BAT0 and a present BAT1.
use lap_guard.Base.{
  ◌≡◌, refl, Bool, true, false, none, some, List, [], ◌∷◌, ◌++◌, Text, codes, text_eq,
}
use lap_guard.Discovery.Scanner.{Supply, pick_primary_battery, first_present, trim_nl}
use lap_guard.Discovery.Scanner.Primary.{IsPrimary, pick_primary_battery-IsPrimary}

abbrev pack : Text → Bool → Supply
pack name present = record {
  name = name;
  path = codes "/sys/" ++ name;
  type_name = codes "Battery";
  present = present;
  online = none;
  available_fields = [];
  manufacturer = [];
  model = [];
  serial = [];
  technology = [];
}

abbrev packs : List Supply
packs = pack (codes "BAT0") false ∷ pack (codes "BAT1") true ∷ []

second_taken : pick_primary_battery packs ≡ some (pack (codes "BAT1") true)
unfolding pick_primary_battery first_present text_eq
second_taken = refl

pick_primary_battery-IsPrimary_example : IsPrimary packs (pick_primary_battery packs)
pick_primary_battery-IsPrimary_example = pick_primary_battery-IsPrimary packs

line_trimmed : trim_nl (codes " 98 \r" ++ 10 ∷ []) ≡ codes "98"
unfolding trim_nl
line_trimmed = refl
