-- ===== src/Storage/Examples.antt =====
-- Rows of two tables, and texts as they are stored.
use lap_guard.Base.{◌≡◌, refl, true, false, none, some, [], ◌∷◌, codes, pos, arith}
use lap_guard.Storage.Table.{Table, Faults, insert_pruned, insert_row, text_below}
use lap_guard.Storage.Table.Retention.{IsOrdered, Retained, insert_pruned_lem}
use lap_guard.Storage.Events.{Event, selected}
use lap_guard.Storage.Events.Latest.{IsLatest, selected-IsLatest}
use lap_guard.Storage.Audit.{sanitize_audit_text}
use lap_guard.Storage.Audit.Redaction.{IsClean, sanitize_audit_text-IsClean}

abbrev no_faults : Faults
no_faults = record { schema = false; insert = false; last_id = false; age = false; count = false }

abbrev outage : Event
outage = record { event_type = codes "ac_disconnected"; source = codes "AC"; duration_ms = none }

abbrev two_rows : Table Event
two_rows = record {
  rows =
      record { id = 4; timestamp = codes "2026-02-01"; value = outage }
      ∷ record { id = 2; timestamp = codes "2025-01-01"; value = outage }
      ∷ [];
  next = 5;
}

insert_pruned_lem_example :
    let (after, id, e) =
      insert_pruned no_faults (codes "2026-01-01") (codes "2026-03-01") outage two_rows in
    IsOrdered after
    × (e ≡ none
        → Retained
            (codes "2026-01-01")
            (insert_row (codes "2026-03-01") outage two_rows).rows
            after.rows
          × (id ≡ some 5))
insert_pruned_lem_example =
    insert_pruned_lem no_faults (codes "2026-01-01") (codes "2026-03-01") outage two_rows
      (omega arith, (omega arith, tt))

selected-IsLatest_example :
    IsLatest
      (codes "ac_disconnected")
      (pos 900)
      two_rows.rows
      (selected (codes "ac_disconnected") (pos 900) two_rows)
selected-IsLatest_example = selected-IsLatest (codes "ac_disconnected") (pos 900) two_rows

sanitize_audit_text-IsClean_example : IsClean (sanitize_audit_text (codes "Authorization: x"))
sanitize_audit_text-IsClean_example = sanitize_audit_text-IsClean (codes "Authorization: x")

-- Within one second, the order of the texts is not that of the times.
later_text_first : text_below (codes "2026-01-01T00:00:00.5Z") (codes "2026-01-01T00:00:00Z") ≡ true
unfolding text_below
later_text_first = refl
