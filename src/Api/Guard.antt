-- ===== src/Api/Guard.antt =====
-- `actionGuard` of internal/api/actions.go: at most one manual action at a time, a cooldown after
-- each, and idempotency keys.
mod Exclusion
mod Examples
use lap_guard.Base.{
  ℕ, ◌+◌, ◌-◌, ◌/◌, ltb, ◌==◌, ℤ, pos, pos_part, ltb_ℤ, Bool, true, false, ◌&&◌, not, Option, none,
  some, [], Text, text_eq, if◌then◌else◌,
}
use lap_guard.Safety.{second}

-- Times are in nanoseconds, and `last` is 0 for Go's zero time. A key is a hash; [] is no key.
pub record Guard : Type 0 where
  pub inflight : Bool
  pub last : ℕ
  pub last_key : Text
  pub pending_key : Text

abbrev pub new_guard : Guard
new_guard = record { inflight = false; last = 0; last_key = []; pending_key = [] }

pub data GuardError : Type 0 where
  duplicate_key in_flight cooldown_active : GuardError

-- `keyHash != "" && keyHash == other`
abbrev same_key : Text → Text → Bool
same_key key other = not (text_eq key []) && text_eq key other

unfoldable pub in_cooldown : Guard → ℤ → ℕ → Bool
in_cooldown g cooldown now =
    ltb_ℤ (pos 0) cooldown && not (g.last == 0) && ltb now (g.last + pos_part cooldown)

-- `begin`: the guard afterwards, and the error it returns, if any.
unfoldable pub begin : ℤ → ℕ → Text → Guard → Guard × Option GuardError
begin cooldown now key g =
    if g.inflight
    then (g, some (if same_key key g.pending_key then duplicate_key else in_flight))
    else if in_cooldown g cooldown now
    then (g, some (if same_key key g.last_key then duplicate_key else cooldown_active))
    else (record g { inflight = true; pending_key = key }, none)

-- `end`.
unfoldable pub finish : ℕ → Bool → Guard → Guard
finish now ran g = record g {
  inflight = false;
  last = if ran then now else g.last;
  last_key = if ran then g.pending_key else g.last_key;
  pending_key = [];
}

pub record CooldownStatus : Type 0 where
  pub active : Bool
  pub in_progress : Bool
  pub seconds_remaining : ℕ

-- `snapshot`: the rest of the cooldown in whole seconds, and 1 for less than a second.
unfoldable pub status : ℤ → ℕ → Guard → CooldownStatus
unfolding in_cooldown
status cooldown now g =
    let rest = (g.last + pos_part cooldown - now) / second in
    if in_cooldown g cooldown now
    then record {
      active = true;
      in_progress = g.inflight;
      seconds_remaining = if ltb rest 1 then 1 else rest;
    }
    else record { active = false; in_progress = g.inflight; seconds_remaining = 0 }
