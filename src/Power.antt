-- ===== src/Power.antt =====
-- The power source of the machine: internal/power/state.go and scan.go.
pub mod Classification
pub mod Watcher
use lap_guard.Base.{
  ℕ, suc, ◌+◌, ltb, ◌==◌, Bool, true, false, ◌&&◌, ◌||◌, not, Option, none, some, is_some, List, [],
  ◌∷◌, Text, codes, text_eq, trim_space, to_lower, if◌then◌else◌,
}

-- `Source`; `unset` is the empty string, which a watcher holds before its first poll.
pub data Source : Type 0 where
  ac battery unknown unset : Source

pub Source-discrete : Discrete Source
Source-discrete = hlevel

abbrev pub source_eq : Source → Source → Bool
source_eq ac ac = true
source_eq battery battery = true
source_eq unknown unknown = true
source_eq unset unset = true
source_eq _ _ = false

pub data EventType : Type 0 where
  ac_connected ac_disconnected ac_unknown : EventType

unfoldable pub event_type : Source → EventType
event_type ac = ac_connected
event_type battery = ac_disconnected
event_type _ = ac_unknown

pub record Adapter : Type 0 where
  pub name : Text
  pub online : Option Bool
  pub readable : Bool

-- Why a poll has no answer.
pub data Reason : Type 0 where
  no_adapter malformed_online : Reason

-- A zero timestamp is Go's zero time.
pub record Snapshot : Type 0 where
  pub timestamp : ℕ
  pub source : Source
  pub adapters : List Adapter
  pub power_loss_detection : Bool
  pub reason : Option Reason

-- `!a.Readable || a.Online == nil`
unfoldable pub is_unreadable : Adapter → Bool
is_unreadable a = not a.readable || not (is_some a.online)

abbrev is_true : Option Bool → Bool
is_true none = false
is_true (some b) = b

unfoldable pub is_online : Adapter → Bool
unfolding is_unreadable
is_online a = if is_unreadable a then false else is_true a.online

-- The loop of `Classify` over its two variables.
unfoldable pub survey : Bool → ℕ → List Adapter → Bool × ℕ
unfolding is_online
survey any_online unreadable [] = (any_online, unreadable)
survey any_online unreadable (a ∷ rest) =
    survey (any_online || is_online a) (if is_unreadable a then suc unreadable else unreadable) rest

unfoldable pub verdict : Bool × ℕ → Source × Option Reason
verdict (any_online, unreadable) =
    if any_online
    then (ac, none)
    else if ltb 0 unreadable
    then (unknown, some malformed_online)
    else (battery, none)

unfoldable pub classify : List Adapter → Source × Option Reason
unfolding survey verdict
classify [] = (unknown, some no_adapter)
classify (a ∷ rest) = verdict (survey false 0 (a ∷ rest))

unfoldable pub has_readable_mains : List Adapter → Bool
has_readable_mains [] = false
has_readable_mains (a ∷ rest) = a.readable && is_some a.online || has_readable_mains rest

-- A directory of power_supply: its name, what its `type` file holds ("" if it cannot be read), and
-- the contents of its `online` file where that can be read.
pub record Entry : Type 0 where
  pub name : Text
  pub kind : Text
  pub online_file : Option Text

abbrev adapter_of : Text → Option Text → Adapter
adapter_of name none = record { name = name; online = none; readable = false }
adapter_of name (some raw) =
    let v = trim_space raw in
    if text_eq v (codes "1")
    then record { name = name; online = some true; readable = true }
    else if text_eq v (codes "0")
    then record { name = name; online = some false; readable = true }
    else record { name = name; online = none; readable = false }

unfoldable pub scan_entries : List Entry → List Adapter
scan_entries [] = []
scan_entries (e ∷ rest) =
    let found = scan_entries rest in
    if text_eq (to_lower (trim_space e.kind)) (codes "mains")
    then adapter_of e.name e.online_file ∷ found
    else found

-- `Scan`: `none` stands for a blank root or a directory that cannot be listed.
unfoldable pub scan : ℕ → Option (List Entry) → Snapshot
unfolding scan_entries classify has_readable_mains
scan now none = record {
  timestamp = now;
  source = unknown;
  adapters = [];
  power_loss_detection = false;
  reason = some no_adapter;
}
scan now (some entries) =
    let adapters = scan_entries entries in
    let (source, reason) = classify adapters in
    record {
      timestamp = now;
      source = source;
      adapters = adapters;
      power_loss_detection = has_readable_mains adapters;
      reason = reason;
    }
