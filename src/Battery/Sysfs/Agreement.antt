-- ===== src/Battery/Sysfs/Agreement.antt =====
-- The probe and the snapshot tell of the same battery.
use lap_guard.Base.{
  ◌≡◌, refl, sym, ◌∙◌, Bool, true, false, ◌&&◌, not, Option, Text, Result, ok, err, ℕ, Bool-cases,
  inl, inr,
}
use lap_guard.Battery.Compute.{Float, Number}
use lap_guard.Battery.Reading.{Snapshot, Probe, Warning, enrich, with_power, with_runtime}
use lap_guard.Battery.Sysfs.{Files, read_present, resolve_battery_dir, list_attr_names}
use lap_guard.Battery.Sysfs.Provider.{snapshot, resolved, absent_or_read, started}
use lap_guard.Battery.Sysfs.Probing.{probe, probed, probe_present}
use lap_guard.Battery.Sysfs.Missing.{read_all-frame}

module _ (F : Float) (fs : Files) where
  absent_or_read-Agrees :
      (dir : Text) (p : Bool × Bool × Option Warning) (s : Snapshot (Number F)) (q : Probe)
      → s.battery.present ≡ false
      → q.battery_present ≡ false
      → s.battery.name ≡ q.battery_name
      → let out = absent_or_read F fs dir p s in
        let seen = probe_present (list_attr_names fs dir) p q in
        (seen.battery_present ≡ out.battery.present)
        × (seen.fields ≡ out.available_fields)
        × (seen.battery_name ≡ out.battery.name)
  unfolding absent_or_read probe_present
  absent_or_read-Agrees dir (present, known, w) s q a b n =
      elim (Bool-cases (known && not present)) [
        | inl h ↦ rw h (b ∙ sym a, refl, sym n)
        | inr h ↦ rw h (
          sym (read_all-frame F fs dir _).1,
          sym (read_all-frame F fs dir _).0,
          sym n ∙ sym (read_all-frame F fs dir _).2,
        )
      ]

  -- What the two make of one resolved battery.
  abbrev Agree : Probe → Snapshot (Number F) → Type 0
  Agree p s =
      (p.battery_present ≡ s.battery.present)
      × (p.fields ≡ s.available_fields)
      × (p.battery_present ≡ true → p.battery_name ≡ s.battery.name)

  resolved-Agree :
      (now : ℕ) (name : Text) (r : Result Warning Text)
      → Agree (probed fs r) (resolved F fs now name r)
  unfolding resolved probed
  resolved-Agree now name (err w) = (refl, refl, λ h. cc)
  resolved-Agree now name (ok dir) =
      let (p, f, n) =
        absent_or_read-Agrees dir (read_present fs dir) (started F fs now dir) _ refl refl refl in
      (p, f, λ h. n)

  -- Of the same files, the probe and the snapshot say alike whether a battery is present, list the
  -- same attributes, and name the same battery where one is present.
  pub probe-snapshot :
      (name : Text) (now : ℕ)
      → let p = probe fs name in
        let s = snapshot F fs name now in
        (p.battery_present ≡ s.battery.present)
        × (p.fields ≡ s.available_fields)
        × (p.battery_present ≡ true → p.battery_name ≡ s.battery.name)
  unfolding probe snapshot enrich with_power with_runtime
  probe-snapshot name now = resolved-Agree now name (resolve_battery_dir fs name)
