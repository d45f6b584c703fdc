-- ===== src/Thresholds.antt =====
-- Charge thresholds: internal/thresholds/controller.go.
mod Laws
mod Driver
pub mod Detection
mod Examples
use lap_guard.Base.{
  ℕ, ℤ, pos, ltb_ℤ, leb_ℤ, Bool, true, false, ◌&&◌, ◌||◌, not, Option, none, some, List, [], ◌∷◌,
  ◌++◌, Text, codes, text_eq, trim_space, Result, ok, err, if◌then◌else◌,
}

-- What the controller calls: the files of sysfs, the command `tlp` with its arguments, and Go's
-- decimal numbers. `none` is a failure.
pub record Machine : Type 1 where
  pub State : Type 0
  pub read : State → Text → Option Text
  pub write : State → Text → Text → Option State
  pub tlp : State → List Text → Option State
  pub itoa : ℤ → Text
  pub atoi : Text → Option ℤ

pub record Controller : Type 0 where
  pub method : Text
  pub start_path : Text
  pub end_path : Text
  pub battery_name : Text

pub data ThresholdError : Type 0 where
  out_of_range start_not_below_end write_failed paths_missing tlp_failed : ThresholdError
  unsupported unknown_method unreadable not_a_number no_reading : ThresholdError

abbrev pub method_sysfs : Text
method_sysfs = codes "sysfs"

abbrev pub method_tlp : Text
method_tlp = codes "tlp"

abbrev pub method_none : Text
method_none = codes "none"

-- `Method`
unfoldable pub method_of : Controller → Text
method_of c = if text_eq c.method [] then method_none else c.method

-- What a call leaves behind, and its error, if any.
abbrev pub Left : Type 0 → Type 0
Left S = S × Option ThresholdError

abbrev then_write : {S : Type 0} → Left S → (S → Left S) → Left S
then_write (s, some e) k = (s, some e)
then_write (s, none) k = k s

module _ (m : Machine) where
  abbrev written : m.State → Option m.State → Left m.State
  written s none = (s, some write_failed)
  written s (some s') = (s', none)

  -- The number on a line of its own.
  abbrev pub line : ℤ → Text
  line n = m.itoa n ++ (10 ∷ [])

  abbrev write_limit : Text → ℤ → m.State → Left m.State
  write_limit path n s = if text_eq path [] then (s, none) else written s (m.write s path (line n))

  abbrev neither : Controller → m.State → Left m.State
  neither c s =
      if text_eq c.start_path [] && text_eq c.end_path []
      then (s, some paths_missing)
      else (s, none)

  unfoldable pub set_sysfs : Controller → ℤ → ℤ → m.State → Left m.State
  set_sysfs c start end s =
      then_write (write_limit c.start_path start s)
        (λ s1. then_write (write_limit c.end_path end s1) (neither c))

  abbrev pub tlp_args : Controller → ℤ → ℤ → List Text
  tlp_args c start end =
      codes "setcharge"
      ∷ m.itoa start
      ∷ m.itoa end
      ∷ (if text_eq (trim_space c.battery_name) [] then [] else c.battery_name ∷ [])

  abbrev tlp_ran : m.State → Option m.State → Left m.State
  tlp_ran s none = (s, some tlp_failed)
  tlp_ran s (some s') = (s', none)

  unfoldable pub set_tlp : Controller → ℤ → ℤ → m.State → Left m.State
  set_tlp c start end s = tlp_ran s (m.tlp s (tlp_args c start end))

  -- `Set`, while its context lasts.
  unfoldable pub set : Controller → ℤ → ℤ → m.State → Left m.State
  set c start end s =
      if (ltb_ℤ start (pos 0) || ltb_ℤ end (pos 0))
        || (ltb_ℤ (pos 100) start || ltb_ℤ (pos 100) end)
      then (s, some out_of_range)
      else if (ltb_ℤ (pos 0) start && ltb_ℤ (pos 0) end) && leb_ℤ end start
      then (s, some start_not_below_end)
      else if text_eq (method_of c) method_sysfs
      then set_sysfs c start end s
      else if text_eq (method_of c) method_tlp
      then set_tlp c start end s
      else if text_eq (method_of c) method_none
      then (s, some unsupported)
      else (s, some unknown_method)

  abbrev parsed : Option ℤ → Result ThresholdError ℤ
  parsed none = err not_a_number
  parsed (some n) = ok n

  abbrev contents : Option Text → Result ThresholdError ℤ
  contents none = err unreadable
  contents (some raw) = parsed (m.atoi (trim_space raw))

  -- `readIntFile`
  unfoldable pub read_int_file : m.State → Text → Result ThresholdError ℤ
  read_int_file s path = if text_eq path [] then ok (pos 0) else contents (m.read s path)

  -- `Get`, while its context lasts. An empty path reads as zero and without an error.
  abbrev both : Result ThresholdError ℤ → Result ThresholdError ℤ → Result ThresholdError (ℤ × ℤ)
  both (err e) end = err e
  both (ok a) (err e) = err e
  both (ok a) (ok b) = ok (a, b)

  unfoldable pub get : Controller → m.State → Result ThresholdError (ℤ × ℤ)
  unfolding read_int_file
  get c s =
      if text_eq (method_of c) method_sysfs
      then both (read_int_file s c.start_path) (read_int_file s c.end_path)
      else if text_eq (method_of c) method_tlp
      then err no_reading
      else if text_eq (method_of c) method_none
      then err no_reading
      else err unknown_method
