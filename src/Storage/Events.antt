-- ===== src/Storage/Events.antt =====
-- The log of power events: `Insert` and `List` of internal/storage/sqlite.go.
pub mod Listing
pub mod Latest
use lap_guard.Base.{
  not, ℕ, ◌-◌, ◌*◌, ◌==◌, ltb, ℤ, Bool, true, false, ◌||◌, ◌&&◌, Option, none, some, List, [], ◌∷◌,
  Text, text_eq, if◌then◌else◌,
}
use lap_guard.Storage.Table.{
  Row, Table, Faults, StoreError, unavailable, text_below, take, limit_of, insert_pruned,
}
use lap_guard.Safety.{second}

pub record Event : Type 0 where
  pub event_type : Text
  pub source : Text
  pub duration_ms : Option ℤ

-- Go's `time.RFC3339Nano` of a UTC time, and what `List` reads from such a text, which takes RFC3339
-- too.
pub record Clock : Type 0 where
  pub format : ℕ → Text
  pub parse : Text → Option ℕ

-- `MaxAge` and `MaxAuditAge`
abbrev pub max_age : ℕ
max_age = 90 * 24 * 3600 * second

abbrev pub or_now : ℕ → ℕ → ℕ
or_now now at = if at == 0 then now else at

-- `Insert` at the time `now`; `none` is a store without a database.
unfoldable pub insert :
    Clock
    → Faults
    → ℕ
    → ℕ
    → Event
    → Option (Table Event)
    → Option (Table Event) × Option ℕ × Option StoreError
unfolding insert_pruned
insert c f now at ev none = (none, none, some unavailable)
insert c f now at ev (some t) =
    let (after, id, e) =
      insert_pruned f (c.format (now - max_age)) (c.format (or_now now at)) ev t in
    (some after, id, e)

-- `WHERE event_type = ?`, for a type that is not empty.
unfoldable pub of_type : Text → List (Row Event) → List (Row Event)
of_type wanted [] = []
of_type wanted (r ∷ rows) =
    let rest = of_type wanted rows in
    if text_eq wanted [] || text_eq r.value.event_type wanted then r ∷ rest else rest

-- `ORDER BY timestamp DESC, id DESC`: `a` comes before `b`.
unfoldable pub comes_before : Row Event → Row Event → Bool
comes_before a b =
    text_below b.timestamp a.timestamp || not (text_below a.timestamp b.timestamp) && ltb b.id a.id

unfoldable pub insert_in_order : Row Event → List (Row Event) → List (Row Event)
unfolding comes_before
insert_in_order r [] = r ∷ []
insert_in_order r (s ∷ rows) =
    let rest = insert_in_order r rows in if comes_before s r then s ∷ rest else r ∷ s ∷ rows

unfoldable pub in_order : List (Row Event) → List (Row Event)
unfolding insert_in_order
in_order [] = []
in_order (r ∷ rows) = insert_in_order r (in_order rows)

-- The rows that `List` selects.
unfoldable pub selected : Text → ℤ → Table Event → List (Row Event)
unfolding of_type in_order take
selected wanted limit t = take (limit_of limit) (in_order (of_type wanted t.rows))

abbrev pub cons_read :
    Row Event → Option ℕ → Option (List (Row Event × ℕ)) → Option (List (Row Event × ℕ))
cons_read r (some at) (some rest) = some ((r, at) ∷ rest)
cons_read r (some at) none = none
cons_read r none rest = none

-- The rows with their times; `none` is an error of the first time that does not parse.
unfoldable pub read_times : Clock → List (Row Event) → Option (List (Row Event × ℕ))
read_times c [] = some []
read_times c (r ∷ rows) = cons_read r (c.parse r.timestamp) (read_times c rows)

-- `List`, where the query does not fail.
unfoldable pub list : Clock → Text → ℤ → Option (Table Event) → Option (List (Row Event × ℕ))
unfolding selected read_times
list c wanted limit none = some []
list c wanted limit (some t) = read_times c (selected wanted limit t)
