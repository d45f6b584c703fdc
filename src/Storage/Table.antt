-- ===== src/Storage/Table.antt =====
-- A table of the event database as its rows, the newest first, with what the statements of
-- internal/storage/sqlite.go and audit.go do to it. SQLite is taken at its documentation: a row gets
-- the next number of its table, texts compare by their code points, and a statement that fails
-- leaves the table as it was.
pub mod Take
pub mod Retention
use lap_guard.Base.{
  ℕ, zero, suc, ◌+◌, ◌-◌, ltb, ◌==◌, ℤ, pos, pos_part, leb_ℤ, ltb_ℤ, Bool, true, false, ◌||◌, ◌&&◌,
  Option, none, some, List, [], ◌∷◌, Text, if◌then◌else◌,
}

pub record Row (A : Type 0) : Type 0 where
  pub id : ℕ
  pub timestamp : Text
  pub value : A

-- `next` is the number that the next row gets.
pub record Table (A : Type 0) : Type 0 where
  pub rows : List (Row A)
  pub next : ℕ

-- `MaxEvents` and `MaxAuditEvents`
abbrev pub max_rows : ℕ
max_rows = 1000

-- `a < b` of two texts.
unfoldable pub text_below : Text → Text → Bool
text_below s [] = false
text_below [] (d ∷ t) = true
text_below (c ∷ s) (d ∷ t) = ltb c d || c == d && text_below s t

-- `INSERT INTO`
abbrev pub insert_row : {A : Type 0} → Text → A → Table A → Table A
insert_row stamp value t = record {
  rows = record { id = t.next; timestamp = stamp; value = value } ∷ t.rows;
  next = suc t.next;
}

-- `DELETE ... WHERE timestamp < ?`
unfoldable pub delete_before : {A : Type 0} → Text → List (Row A) → List (Row A)
unfolding text_below
delete_before cutoff [] = []
delete_before cutoff (r ∷ rows) =
    let rest = delete_before cutoff rows in if text_below r.timestamp cutoff then rest else r ∷ rest

-- `take n`: what `ORDER BY id DESC LIMIT n` leaves of rows that are in that order.
unfoldable pub take : {A : Type 0} → ℕ → List A → List A
take zero xs = []
take (suc n) [] = []
take (suc n) (x ∷ xs) = x ∷ take n xs

-- Which statements of one call fail.
pub record Faults : Type 0 where
  pub schema : Bool
  pub insert : Bool
  pub last_id : Bool
  pub age : Bool
  pub count : Bool

pub data StoreError : Type 0 where
  unavailable schema_failed insert_failed no_id prune_failed : StoreError

-- `prune` and `pruneAudit`, which are alike.
unfoldable pub prune : {A : Type 0} → Faults → Text → Table A → Table A × Option StoreError
unfolding delete_before take
prune f cutoff t =
    let young = delete_before cutoff t.rows in
    if f.age
    then (t, some prune_failed)
    else if f.count
    then (record t { rows = young }, some prune_failed)
    else (record t { rows = take max_rows young }, none)

-- A limit as it is given to `List` and `ListAudit`.
abbrev pub limit_of : ℤ → ℕ
limit_of n =
    let m = if leb_ℤ n (pos 0) then pos 50 else n in
    pos_part (if ltb_ℤ (pos 500) m then pos 500 else m)

-- The parts of `Insert` and `InsertAudit` after the schema: the row, its number, and the pruning. The
-- number is what the caller gets, if the row was written and has one.
unfoldable pub insert_pruned :
    {A : Type 0} → Faults → Text → Text → A → Table A → Table A × Option ℕ × Option StoreError
unfolding prune
insert_pruned f cutoff stamp value t =
    let stored = insert_row stamp value t in
    let (pruned, e) = prune f cutoff stored in
    if f.insert
    then (t, none, some insert_failed)
    else if f.last_id
    then (stored, none, some no_id)
    else (pruned, some t.next, e)
