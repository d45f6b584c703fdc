-- ===== src/Battery/Sysfs/Choice.antt =====
-- Which battery is read where none is named.
use lap_guard.Base.{
  ◌≡◌, refl, sym, ap, ◌∙◌, true, Option, none, some, List, [], ◌∷◌, Text, text_eq, text_eq→eq,
  text_eq_refl, mem_text, ok, arith, Bool-cases, inl, inr,
}
use lap_guard.Battery.Sysfs.{
  Files, directory, is_battery_dir, found_batteries, chosen, bat0, among, or_no_battery,
  resolve_battery_dir,
}

chosen_lem :
    (found : List Text) (d : Text)
    → chosen found ≡ some d
    → (mem_text d found ≡ true) × (mem_text bat0 found ≡ true → d ≡ bat0)
unfolding chosen mem_text
chosen_lem [] d h = ground arith
chosen_lem (first ∷ rest) d h = elim (Bool-cases (mem_text bat0 (first ∷ rest))) [
  | inl b ↦ let e : d ≡ bat0 = ground arith in (ap (λ x. mem_text x (first ∷ rest)) e ∙ b, λ k. e)
  | inr b ↦ let e : d ≡ first = ground arith in (rw (e, text_eq_refl first) refl, λ k. ground arith)
]

chosen-some :
    (found : List Text) (e : Text) → mem_text e found ≡ true → (d : Text) × (chosen found ≡ some d)
unfolding chosen mem_text
chosen-some [] e h = ground arith
chosen-some (first ∷ rest) e h = (_, refl)

or_no_battery-ok : (o : Option Text) (d : Text) → or_no_battery o ≡ ok d → o ≡ some d
or_no_battery-ok none d h = cc
or_no_battery-ok (some e) d h = cc

module _ (fs : Files) where
  found_batteries_sound :
      (names : List Text) (d : Text)
      → mem_text d (found_batteries fs names) ≡ true
      → (mem_text d names ≡ true) × (is_battery_dir fs d ≡ true)
  unfolding found_batteries mem_text
  found_batteries_sound [] d h = ground arith
  found_batteries_sound (name ∷ rest) d h =
      let ih = found_batteries_sound rest d in
      elim (Bool-cases (text_eq d name)) [
        | inl e ↦ elim (Bool-cases (is_battery_dir fs name)) [
          | inl b ↦ (rw e refl, rw (text_eq→eq d name e) b)
          | inr b ↦ ground (arith, ih)
        ]
        | inr e ↦ ground (arith, ih)
      ]

  found_batteries_complete :
      (names : List Text) (d : Text)
      → mem_text d names ≡ true
      → is_battery_dir fs d ≡ true
      → mem_text d (found_batteries fs names) ≡ true
  unfolding found_batteries mem_text
  found_batteries_complete [] d h b = ground arith
  found_batteries_complete (name ∷ rest) d h b =
      let ih = found_batteries_complete rest d in
      elim (Bool-cases (text_eq d name)) [
        | inl e ↦
            let b' = ap (is_battery_dir fs) (sym (text_eq→eq d name e)) ∙ b in ground (arith, b')
        | inr e ↦ ground (arith, ih)
      ]

  -- Where no battery is named and the root can be listed, the battery that is chosen is a battery's
  -- directory of the list, and BAT0 if that is one; and where the list has a battery's directory, one
  -- is chosen.
  pub resolve_battery_dir_lem :
      (names : List Text)
      → fs.root ≡ directory
      → fs.entries ≡ some names
      → ((d : Text)
          → resolve_battery_dir fs [] ≡ ok d
          → (mem_text d names ≡ true)
            × (is_battery_dir fs d ≡ true)
            × (mem_text bat0 names ≡ true → is_battery_dir fs bat0 ≡ true → d ≡ bat0))
        × ((e : Text)
            → mem_text e names ≡ true
            → is_battery_dir fs e ≡ true
            → (d : Text) × (resolve_battery_dir fs [] ≡ ok d))
  unfolding resolve_battery_dir among chosen text_eq
  resolve_battery_dir_lem names r l =
      let same : resolve_battery_dir fs [] ≡ or_no_battery (chosen (found_batteries fs names)) =
        rw (r, l) refl in
      (
        λ d h.
            let c = or_no_battery-ok (chosen (found_batteries fs names)) d (sym same ∙ h) in
            let (m, first) = chosen_lem (found_batteries fs names) d c in
            let (mn, b) = found_batteries_sound names d m in
            (mn, b, λ k b0. first (found_batteries_complete names bat0 k b0)),
        λ e m b.
            let (d, c) =
              chosen-some (found_batteries fs names) e (found_batteries_complete names e m b) in
            (d, same ∙ ap or_no_battery c),
      )
