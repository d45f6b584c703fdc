-- ===== src/Thresholds/Examples.antt =====
-- Files that hold what was written, and a driver that refuses a start not below the end. Numbers are
-- written as one code point, in place of decimal digits.
use lap_guard.Base.{
  true, ℕ, ◌+◌, ◌-◌, ◌*◌, ◌/◌, ◌%◌, ◌≤◌, ◌==◌, ℤ, pos, negsuc, ltb_ℤ, ◌≡◌, ◌↔◌, refl, false, Option,
  none, some, [], ◌∷◌, Text, codes, text_eq, trim_space, is_space, trim_left, arith, sym, ap, ◌≤ℤ◌,
  ◌<ℤ◌, if◌then◌else◌, ok,
}
use lap_guard.Thresholds.{Machine, Controller, set, get, method_of, set_sysfs}
use lap_guard.Thresholds.Laws.{IsLawful, get-set}
use lap_guard.Thresholds.{paths_missing, unknown_method}
use lap_guard.Thresholds.Detection.{Host, Scan, detect_thresholds, new}
use lap_guard.Thresholds.Detection.Paths.{detected-set}
use lap_guard.Base.{◌≢◌}
use lap_guard.Thresholds.Driver.{IsStrict, set-iff_below_old_end}

encode : ℤ → ℕ
encode (pos n) = 20000 + 2 * n
encode (negsuc n) = 20001 + 2 * n

decode : ℕ → ℤ
decode c = if c % 2 == 0 then pos ((c - 20000) / 2) else negsuc ((c - 20001) / 2)

decode-encode : (n : ℤ) → decode (encode n) ≡ n
unfolding encode decode
decode-encode (pos n) = ground arith
decode-encode (negsuc n) = ground arith

encode-large : (n : ℤ) → 20000 ≤ encode n
unfolding encode
encode-large (pos n) = omega arith
encode-large (negsuc n) = omega arith

large_is_no_space : (c : ℕ) → 20000 ≤ c → is_space c ≡ false
unfolding is_space
large_is_no_space c h = ground arith

trim-line : (c : ℕ) → is_space c ≡ false → trim_space (c ∷ 10 ∷ []) ≡ c ∷ []
unfolding trim_space trim_left
trim-line c h = rw h (rw h refl)

abbrev first : Text → Option ℤ
first (c ∷ []) = some (decode c)
first _ = none

first-line : (n : ℤ) → first (trim_space (encode n ∷ 10 ∷ [])) ≡ some n
first-line n =
    rw (trim-line (encode n) (large_is_no_space (encode n) (encode-large n)), decode-encode) refl

abbrev files : Machine
files = record {
  State = Text → Option Text;
  read = λ s p. s p;
  write = λ s p t. some (λ q. if text_eq q p then some t else s q);
  tlp = λ s args. none;
  itoa = λ n. encode n ∷ [];
  atoi = first;
}

abbrev held : Text → Option (Text → Option Text) → Option Text
held q none = none
held q (some f) = f q

files-IsLawful : IsLawful files
files-IsLawful = record { read-write = λ s p t q e. sym (ap (held q) e); atoi-line = first-line }

abbrev controller : Controller
controller = record {
  method = codes "sysfs";
  start_path = codes "start";
  end_path = codes "end";
  battery_name = codes "BAT0";
}

abbrev empty : files.State
empty = λ q. none

get-set_example :
    get files controller (set files controller (pos 40) (pos 80) empty).0 ≡ ok (pos 40, pos 80)
unfolding text_eq method_of set set_sysfs
get-set_example =
    get-set files files-IsLawful controller (pos 40) (pos 80) empty refl refl refl refl refl

-- A driver with a start of 40 and an end of 60, say.
abbrev limit : Text → ℤ
limit (c ∷ t) = decode c
limit [] = pos 0

abbrev strict : Machine
strict = record {
  State = ℤ × ℤ;
  read = λ s p. none;
  write = λ s p t.
      if text_eq p (codes "start")
      then (if ltb_ℤ (limit t) s.1 then some (limit t, s.1) else none)
      else if text_eq p (codes "end")
      then (if ltb_ℤ s.0 (limit t) then some (s.0, limit t) else none)
      else none;
  tlp = λ s args. none;
  itoa = λ n. encode n ∷ [];
  atoi = first;
}

start_taken :
    (n e : ℤ)
    → n <ℤ e
    → if◌then◌else◌ {A = Option (ℤ × ℤ)}
        (ltb_ℤ (decode (encode n)) e)
        (some (decode (encode n), e))
        none
      ≡ some (n, e)
start_taken n e h = rw (decode-encode n) (ground arith)

start_refused :
    (n e : ℤ)
    → e ≤ℤ n
    → if◌then◌else◌ {A = Option (ℤ × ℤ)}
        (ltb_ℤ (decode (encode n)) e)
        (some (decode (encode n), e))
        none
      ≡ none
start_refused n e h = rw (decode-encode n) (ground arith)

end_taken :
    (b n : ℤ)
    → b <ℤ n
    → if◌then◌else◌ {A = Option (ℤ × ℤ)}
        (ltb_ℤ b (decode (encode n)))
        (some (b, decode (encode n)))
        none
      ≡ some (b, n)
end_taken b n h = rw (decode-encode n) (ground arith)

abbrev strict-IsStrict : IsStrict strict controller
unfolding text_eq
strict-IsStrict = record {
  start_of = λ s. s.0;
  end_of = λ s. s.1;
  takes_start = λ s n h. ((n, s.1), start_taken n s.1 h, refl, refl);
  refuses_start = λ s n h. start_refused n s.1 h;
  takes_end = λ s n h. ((s.0, n), end_taken s.0 n h, refl, refl);
}

set-iff_below_old_end_example :
    ((set strict controller (pos 70) (pos 80) (pos 40, pos 60)).1 ≡ none) ↔ (pos 70 <ℤ pos 60)
unfolding text_eq method_of set
set-iff_below_old_end_example =
    set-iff_below_old_end strict controller strict-IsStrict (pos 70) (pos 80) (pos 40, pos 60) refl
      refl refl (omega arith, omega arith, omega arith, omega arith) (omega arith)

-- An older ThinkPad: nothing in the battery's directory, one file of thinkpad_acpi.
abbrev thinkpad : Host
thinkpad = record {
  thinkpad_paths = codes "/sys/devices/platform/thinkpad_acpi/charge_stop_threshold" ∷ [];
  is_writable = λ p. true;
  number_in = λ p. some (pos 100);
  has_tlp = false;
  tlp_can_set = false;
}

abbrev bare_scan : Scan
bare_scan = record {
  primary_name = codes "BAT0";
  charge_start_path = [];
  charge_end_path = [];
  charge_start = none;
  charge_end = none;
}

detected-set_example :
    let e = (set files (new (detect_thresholds thinkpad bare_scan)) (pos 40) (pos 80) empty).1 in
    (e ≢ some paths_missing) × (e ≢ some unknown_method)
unfolding text_eq
detected-set_example = detected-set files thinkpad bare_scan (pos 40) (pos 80) empty (refl, tt)
