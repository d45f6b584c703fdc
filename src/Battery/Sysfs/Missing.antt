-- ===== src/Battery/Sysfs/Missing.antt =====
-- Which fields a snapshot lists as missing.
use lap_guard.Base.{
  ◌≡◌, sym, ◌∙◌, refl, Bool, true, false, ◌&&◌, not, Option, List, [], ◌∷◌, ◌++◌, Text, codes, ok,
  if◌then◌else◌, arith, ℕ,
}
use mathlib.Core.List.{append-nil, append_assoc}
use lap_guard.Battery.Compute.{Float, Number}
use lap_guard.Battery.Reading.{Warning, Snapshot, enrich, filter_equivalent_missing, is_covered}
use lap_guard.Battery.Sysfs.{
  int_of, string_of, Files, Reading, absent, denied, failed, bytes, read_int_field,
  read_string_field, read_present, resolve_battery_dir, list_attr_names,
}
use lap_guard.Battery.Sysfs.Provider.{
  measured, read_status, read_capacity_level, read_identity, number_fields, snapshot,
  tracked_fields, read_all, resolved, absent_or_read, started,
}

-- The battery's own mark says that it is not there.
abbrev pub marked_absent : Bool × Bool × Option Warning → Bool
marked_absent (present, known, w) = known && not present

abbrev is_absent : Reading → Bool
is_absent absent = true
is_absent _ = false

-- The attribute has no file.
abbrev pub has_no_file : Files → Text → Text → Bool
has_no_file fs dir f = is_absent (fs.read dir f)

abbrev pub keep : (Text → Bool) → List Text → List Text
keep p [] = []
keep p (f ∷ fields) = let rest = keep p fields in if p f then f ∷ rest else rest

-- One more note for each field that the test holds of.
abbrev notes : (Text → Bool) → List Text → List Text → List Text
notes p before [] = before
notes p before (f ∷ fields) = notes p (before ++ (if p f then f ∷ [] else [])) fields

append-lack :
    (before : List Text) (b : Bool) (f : Text) (fields : List Text)
    → (before ++ (if b then f ∷ [] else [])) ++ fields
      ≡ before ++ (if b then f ∷ fields else fields)
append-lack before true f fields = append_assoc before (f ∷ []) fields
append-lack before false f fields = rw (append-nil before) refl

notes-keep :
    (p : Text → Bool) (before fields : List Text) → notes p before fields ≡ before ++ keep p fields
notes-keep p before [] = sym (append-nil before)
notes-keep p before (f ∷ fields) =
    notes-keep p (before ++ (if p f then f ∷ [] else [])) fields
    ∙ append-lack before (p f) f (keep p fields)

keep_same :
    (p q : Text → Bool)
    → ((f : Text) → p f ≡ q f)
    → (fields : List Text) → keep p fields ≡ keep q fields
keep_same p q h [] = refl
keep_same p q h (f ∷ fields) = rw (h f, keep_same p q h fields) refl

filter_equivalent_missing-keep :
    (p : Text → Bool) (available fields : List Text)
    → filter_equivalent_missing (keep p fields) available
      ≡ keep (λ f. p f && not (is_covered available f)) fields
unfolding filter_equivalent_missing
filter_equivalent_missing-keep p available [] = refl
filter_equivalent_missing-keep p available (f ∷ fields) =
    ground (arith, filter_equivalent_missing-keep p available fields)

int_of-absent : (fs : Files) (f : Text) (r : Reading) → (int_of fs f r).is_missing ≡ is_absent r
int_of-absent fs f absent = refl
int_of-absent fs f denied = refl
int_of-absent fs f failed = refl
int_of-absent fs f (bytes raw) = ground arith

string_of-absent : (f : Text) (r : Reading) → (string_of f r).is_missing ≡ is_absent r
string_of-absent f absent = refl
string_of-absent f denied = refl
string_of-absent f failed = refl
string_of-absent f (bytes raw) = refl

module _ (F : Float) (fs : Files) where
  read_all-notes :
      (dir : Text) (s : Snapshot (Number F))
      → (read_all F fs dir s).missing_fields
        ≡ notes
            (λ f. (int_of fs f (fs.read dir f)).is_missing)
            (s.missing_fields
              ++ (if (string_of (codes "status") (fs.read dir (codes "status"))).is_missing
                  then codes "status" ∷ []
                  else []))
            number_fields
  unfolding read_all read_identity measured read_status read_capacity_level read_string_field
      read_int_field
  read_all-notes dir s = refl

  read_all-missing :
      (dir : Text) (s : Snapshot (Number F))
      → (read_all F fs dir s).missing_fields
        ≡ s.missing_fields ++ keep (has_no_file fs dir) tracked_fields
  read_all-missing dir s =
      let p : Text → Bool = λ f. (int_of fs f (fs.read dir f)).is_missing in
      let status = codes "status" in
      let r = fs.read dir status in
      let lack : Bool = (string_of status r).is_missing in
      read_all-notes dir s
      ∙ notes-keep p (s.missing_fields ++ (if lack then status ∷ [] else [])) number_fields
      ∙ append-lack s.missing_fields lack status (keep p number_fields)
      ∙ rw
          (
            string_of-absent status r,
            keep_same p (has_no_file fs dir) (λ f. int_of-absent fs f (fs.read dir f))
                number_fields,
          )
          refl

  -- Reading the attributes changes neither the list of files nor the mark of presence nor the name.
  pub read_all-frame :
      (dir : Text) (s : Snapshot (Number F))
      → let out = read_all F fs dir s in
        (out.available_fields ≡ s.available_fields)
        × (out.battery.present ≡ s.battery.present)
        × (out.battery.name ≡ s.battery.name)
  unfolding read_all read_identity measured read_status read_capacity_level
  read_all-frame dir s = (refl, refl, refl)

  absent_or_read-missing :
      (dir : Text) (p : Bool × Bool × Option Warning) (s : Snapshot (Number F))
      → marked_absent p ≡ false
      → let out = absent_or_read F fs dir p s in
        (out.missing_fields ≡ s.missing_fields ++ keep (has_no_file fs dir) tracked_fields)
        × (out.available_fields ≡ list_attr_names fs dir)
  unfolding absent_or_read
  absent_or_read-missing dir (present, known, w) s h =
      rw h (read_all-missing dir _, (read_all-frame dir _).0)

  -- Where a battery is found that is not marked as absent, the snapshot lists as missing exactly the
  -- tracked fields that have no file and no available equivalent, in their order.
  pub snapshot-missing_fields :
      (name : Text) (now : ℕ) (dir : Text)
      → resolve_battery_dir fs name ≡ ok dir
      → marked_absent (read_present fs dir) ≡ false
      → (snapshot F fs name now).missing_fields
        ≡ keep
            (λ f. has_no_file fs dir f && not (is_covered (list_attr_names fs dir) f))
            tracked_fields
  unfolding snapshot enrich resolved
  snapshot-missing_fields name now dir found here =
      let (m, a) = absent_or_read-missing dir (read_present fs dir) (started F fs now dir) here in
      rw (found, m, a)
        (filter_equivalent_missing-keep (has_no_file fs dir) (list_attr_names fs dir)
          tracked_fields)
