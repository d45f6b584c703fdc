-- ===== src/Storage/Audit.antt =====
-- The security log: internal/storage/audit.go.
pub mod Redaction
use lap_guard.Base.{
  ℕ, ◌+◌, ◌-◌, ltb, ◌==◌, ℤ, Bool, true, false, ◌||◌, Option, none, some, List, [], ◌∷◌, Text,
  codes, text_eq, trim_space, to_lower, contains, has_prefix, if◌then◌else◌,
}
use lap_guard.Storage.Table.{
  Row, Table, Faults, StoreError, schema_failed, take, limit_of, insert_pruned,
}
use lap_guard.Storage.Events.{Clock, max_age, or_now}

pub record AuditEvent : Type 0 where
  pub kind : Text
  pub success : Bool
  pub remote : Text
  pub method : Text
  pub endpoint : Text
  pub reason : Text

-- The address functions of Go's `net`: the host of `host:port`, and an address as it is printed.
pub record Net : Type 0 where
  pub split_host : Text → Option Text
  pub ip : Text → Option Text

abbrev pub redacted : Text
redacted = codes "redacted"

abbrev pub needles : List Text
needles =
    codes "authorization"
    ∷ codes "bearer "
    ∷ codes "webhook"
    ∷ codes "chat_id"
    ∷ codes "password"
    ∷ codes "token_hash"
    ∷ codes "serial"
    ∷ codes "idempotency"
    ∷ []

unfoldable pub contains_one : Text → List Text → Bool
contains_one s [] = false
contains_one s (n ∷ rest) = contains s n || contains_one s rest

-- The bytes of a character in UTF-8.
abbrev pub width : ℕ → ℕ
width c = if ltb c 0x80 then 1 else if ltb c 0x800 then 2 else if ltb c 0x1_0000 then 3 else 4

-- The first `n` bytes. A character that the cut goes through is left out, where Go keeps the bytes
-- before the cut.
unfoldable pub first_bytes : ℕ → Text → Text
first_bytes n [] = []
first_bytes n (c ∷ s) =
    let rest = first_bytes (n - width c) s in if ltb n (width c) then [] else c ∷ rest

unfoldable pub sanitize_audit_text : Text → Text
unfolding contains_one first_bytes
sanitize_audit_text raw =
    let s = trim_space raw in
    if contains_one (to_lower s) needles
    then redacted
    else if contains s (codes "://") || contains s (codes "lg_")
    then redacted
    else first_bytes 200 s

-- What stands before a question mark.
unfoldable pub before_query : Text → Text
before_query [] = []
before_query (c ∷ s) = let rest = before_query s in if c == b'?' then [] else c ∷ rest

unfoldable pub sanitize_endpoint : Text → Text
unfolding before_query
sanitize_endpoint raw =
    let path = before_query (trim_space raw) in
    if has_prefix path (codes "/") then path else codes "/"

abbrev pub host_or : Text → Option Text → Text
host_or s none = s
host_or s (some host) = host

abbrev pub ip_or_unknown : Option Text → Text
ip_or_unknown none = codes "unknown"
ip_or_unknown (some t) = t

unfoldable pub sanitize_remote : Net → Text → Text
sanitize_remote n raw =
    let s = trim_space raw in
    if text_eq s [] then [] else ip_or_unknown (n.ip (host_or s (n.split_host s)))

-- The row as it is stored.
unfoldable pub sanitized : Net → AuditEvent → AuditEvent
unfolding sanitize_endpoint sanitize_remote sanitize_audit_text
sanitized n ev = record {
  kind = (let kind = trim_space ev.kind in if text_eq kind [] then codes "unknown" else kind);
  success = ev.success;
  remote = sanitize_remote n ev.remote;
  method = trim_space ev.method;
  endpoint = sanitize_endpoint ev.endpoint;
  reason = sanitize_audit_text ev.reason;
}

-- `InsertAudit` at the time `now`; without a database it does nothing.
unfoldable pub insert_audit :
    Clock
    → Net
    → Faults
    → ℕ
    → ℕ
    → AuditEvent
    → Option (Table AuditEvent)
    → Option (Table AuditEvent) × Option ℕ × Option StoreError
unfolding insert_pruned sanitized
insert_audit c n f now at ev none = (none, none, none)
insert_audit c n f now at ev (some t) =
    let (after, id, e) =
      insert_pruned f (c.format (now - max_age)) (c.format (or_now now at)) (sanitized n ev) t in
    if f.schema then (some t, none, some schema_failed) else (some after, id, e)

-- The rows that `ListAudit` selects, `ORDER BY id DESC`.
unfoldable pub list_audit : ℤ → Option (Table AuditEvent) → List (Row AuditEvent)
unfolding take
list_audit limit none = []
list_audit limit (some t) = take (limit_of limit) t.rows
