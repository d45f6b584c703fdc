-- ===== src/Thresholds/Driver.antt =====
-- A driver that refuses a start that is not below the end, which the order of the two writes is
-- meant for.
use lap_guard.Base.{[], ℤ, ◌≡◌, ◌≢◌, ◌↔◌, true, false, none, some, text_eq, arith, ◌≤ℤ◌, ◌<ℤ◌}
use lap_guard.Thresholds.{Machine, Controller, method_of, method_sysfs, line, set_sysfs, set}
use lap_guard.Thresholds.Laws.{InRange}

-- The driver holds two limits. A write sets one of them, and is refused where the start would not
-- be below the end.
pub record IsStrict (m : Machine) (c : Controller) : Type 0 where
  pub start_of : m.State → ℤ
  pub end_of : m.State → ℤ
  pub takes_start :
      (s : m.State) (n : ℤ)
      → n <ℤ end_of s
      → (s' : m.State) × (m.write s c.start_path (line m n) ≡ some s')
        × (end_of s' ≡ end_of s)
        × (start_of s' ≡ n)
  pub refuses_start :
      (s : m.State) (n : ℤ) → end_of s ≤ℤ n → m.write s c.start_path (line m n) ≡ none
  pub takes_end :
      (s : m.State) (n : ℤ)
      → start_of s <ℤ n
      → (s' : m.State) × (m.write s c.end_path (line m n) ≡ some s')
        × (end_of s' ≡ n)
        × (start_of s' ≡ start_of s)

module _ (m : Machine) (c : Controller) (d : IsStrict m c) where
  set_sysfs-takes :
      (start end : ℤ) (s : m.State)
      → text_eq c.start_path [] ≡ false
      → text_eq c.end_path [] ≡ false
      → start <ℤ end
      → start <ℤ d.end_of s
      → (set_sysfs m c start end s).1 ≡ none
  unfolding set_sysfs
  set_sysfs-takes start end s p q lt below =
      let (s1, w1, e1, b1) = d.takes_start s start below in
      let (s2, w2, e2, b2) = d.takes_end s1 end (rw b1 lt) in ground arith

  set_sysfs-refuses :
      (start end : ℤ) (s : m.State)
      → text_eq c.start_path [] ≡ false
      → d.end_of s ≤ℤ start
      → (set_sysfs m c start end s).1 ≢ none
  unfolding set_sysfs
  set_sysfs-refuses start end s p above = ground (arith, d.refuses_start s start above)

  -- Over a driver that refuses a start not below the end, a valid pair of limits is set exactly
  -- where its start is below the end that the driver holds already: a pair that lies above the old
  -- one is refused, since the start is written first.
  pub set-iff_below_old_end :
      (start end : ℤ) (s : m.State)
      → text_eq (method_of c) method_sysfs ≡ true
      → text_eq c.start_path [] ≡ false
      → text_eq c.end_path [] ≡ false
      → InRange start end
      → start <ℤ end
      → ((set m c start end s).1 ≡ none) ↔ (start <ℤ d.end_of s)
  unfolding set
  set-iff_below_old_end start end s k p q r lt = (
    λ h. ground (arith, set_sysfs-refuses start end s p),
    λ below. ground (arith, set_sysfs-takes start end s p q lt below),
  )
