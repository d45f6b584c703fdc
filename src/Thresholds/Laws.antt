-- ===== src/Thresholds/Laws.antt =====
-- What is read back after the limits were set, and what a refused call leaves alone.
use lap_guard.Base.{
  Option-cases, inl, inr, text_eq_refl, ℤ, pos, ◌≡◌, true, false, none, some, [], Text, text_eq,
  trim_space, arith, ok, ◌≤ℤ◌, ◌<ℤ◌, if◌then◌else◌,
}
use lap_guard.Thresholds.{
  Machine, Controller, out_of_range, start_not_below_end, method_of, method_sysfs, line, set_sysfs,
  set, read_int_file, get,
}

-- What files and decimal numbers are relied on for: a file holds what was last written to it, and a
-- number is read back from its line.
pub record IsLawful (m : Machine) : Type 0 where
  pub read-write :
      (s : m.State) (p t q : Text) {s' : m.State}
      → m.write s p t ≡ some s'
      → m.read s' q ≡ (if text_eq q p then some t else m.read s q)
  pub atoi-line : (n : ℤ) → m.atoi (trim_space (line m n)) ≡ some n

-- Both limits are percentages.
abbrev pub InRange : ℤ → ℤ → Type 0
InRange start end = (pos 0 ≤ℤ start) × (start ≤ℤ pos 100) × (pos 0 ≤ℤ end) × (end ≤ℤ pos 100)

module _ (m : Machine) where
  -- A call that succeeds on two paths wrote both, the start first.
  set_sysfs-writes :
      (c : Controller) (start end : ℤ) (s : m.State)
      → text_eq c.start_path [] ≡ false
      → text_eq c.end_path [] ≡ false
      → (set_sysfs m c start end s).1 ≡ none
      → (s1 : m.State) × (s2 : m.State) × (m.write s c.start_path (line m start) ≡ some s1)
        × (m.write s1 c.end_path (line m end) ≡ some s2)
        × ((set_sysfs m c start end s).0 ≡ s2)
  unfolding set_sysfs
  set_sysfs-writes c start end s p q h =
      elim (Option-cases (m.write s c.start_path (line m start))) [
        | inl e ↦ ground arith
        | inr (s1, e) ↦ elim (Option-cases (m.write s1 c.end_path (line m end))) [
          | inl e' ↦ ground arith
          | inr (s2, e') ↦ (s1, s2, e, e', ground arith)
        ]
      ]

  -- A method other than sysfs sets no file, so that a success there is no success of `Get`.
  set-sysfs :
      (c : Controller) (start end : ℤ) (s : m.State)
      → text_eq (method_of c) method_sysfs ≡ true
      → (set m c start end s).1 ≡ none
      → (set m c start end s ≡ set_sysfs m c start end s) × ((set_sysfs m c start end s).1 ≡ none)
  unfolding set
  set-sysfs c start end s h k = ground arith

  read_int_file-line :
      IsLawful m
      → (s : m.State) (path : Text) (n : ℤ) → text_eq path [] ≡ false
      → m.read s path ≡ some (line m n)
      → read_int_file m s path ≡ ok n
  unfolding read_int_file
  read_int_file-line L s path n p h = ground (arith, L.atoi-line n)

  -- On lawful files, with two different paths: limits that `Set` takes over sysfs are what `Get`
  -- reads back.
  pub get-set :
      IsLawful m
      → (c : Controller) (start end : ℤ) (s : m.State) → text_eq (method_of c) method_sysfs ≡ true
      → text_eq c.start_path [] ≡ false
      → text_eq c.end_path [] ≡ false
      → text_eq c.start_path c.end_path ≡ false
      → (set m c start end s).1 ≡ none
      → get m c (set m c start end s).0 ≡ ok (start, end)
  unfolding get
  get-set L c start end s k p q d h =
      let (same, done) = set-sysfs c start end s k h in
      let (s1, s2, w1, w2, last) = set_sysfs-writes c start end s p q done in
      rw (same, last)
        (ground (
          arith,
          L.read-write s1 c.end_path (line m end) c.start_path w2,
          L.read-write s1 c.end_path (line m end) c.end_path w2,
          L.read-write s c.start_path (line m start) c.start_path w1,
          text_eq_refl c.start_path,
          text_eq_refl c.end_path,
          read_int_file-line L s2 c.start_path start p,
          read_int_file-line L s2 c.end_path end q,
        ))

-- A pair of limits that `Set` takes is in range, with the start below the end unless one of them is
-- zero; a pair out of range, and one in range with both above zero and the start not below the end,
-- changes nothing and gets its own error.
pub set_checks :
    (m : Machine) (c : Controller) (start end : ℤ) (s : m.State)
    → ((set m c start end s).1 ≡ none
        → InRange start end × (pos 0 <ℤ start → pos 0 <ℤ end → start <ℤ end))
      × (¬ InRange start end → set m c start end s ≡ (s, some out_of_range))
      × (InRange start end
          → pos 0 <ℤ start
          → pos 0 <ℤ end
          → end ≤ℤ start
          → set m c start end s ≡ (s, some start_not_below_end))
unfolding set
set_checks m c start end s = (λ h. ground arith, λ h. ground arith, λ r a b h. ground arith)
