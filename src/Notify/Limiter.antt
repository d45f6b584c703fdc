-- ===== src/Notify/Limiter.antt =====
-- The rate limiter of internal/notify/ratelimit.go.
mod Laws
mod Examples
use lap_guard.Base.{
  ℕ, ◌+◌, ltb, leb, ℤ, pos, pos_part, leb_ℤ, ltb_ℤ, sub_ℕ, Bool, true, false, Option, none, some,
  List, [], ◌∷◌, ◌&&◌, Text, text_eq, if◌then◌else◌,
}

-- The map `last`, newest entries first; a key occurs as often as it was let through, and its first
-- entry counts. Times are in nanoseconds.
pub record Limiter : Type 0 where
  pub cooldown : ℤ
  pub last : List (Text × ℕ)

-- `NewLimiter`: a cooldown that is not positive becomes five minutes.
unfoldable pub new_limiter : ℤ → Limiter
new_limiter cooldown = record {
  cooldown = if leb_ℤ cooldown (pos 0) then pos 300_000_000_000 else cooldown;
  last = [];
}

unfoldable pub lookup : Text → List (Text × ℕ) → Option ℕ
lookup key [] = none
lookup key ((k, t) ∷ rest) = let later = lookup key rest in if text_eq key k then some t else later

abbrev pub too_soon : ℤ → ℕ → Option ℕ → Bool
too_soon cooldown now none = false
too_soon cooldown now (some prev) = ltb_ℤ (sub_ℕ now prev) cooldown

-- `Allow` at the time `now`.
unfoldable pub allow : ℕ → Text → Limiter → Limiter × Bool
allow now key l =
    if text_eq key []
    then (l, false)
    else if too_soon l.cooldown now (lookup key l.last)
    then (l, false)
    else (record l { last = (key, now) ∷ l.last }, true)
