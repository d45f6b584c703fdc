-- ===== src/Notify/Limiter/Laws.antt =====
-- Events of one type are let through no more often than once per cooldown.

use mathlib.Core.Path.{subst}
use lap_guard.Base.{
  ◌∙◌, ℕ, ◌≡◌, ◌⊎◌, inl, inr, refl, ℤ, pos, ◌≤ℤ◌, ◌<ℤ◌, sub_ℕ, Bool, true, false, Option, none,
  some, List, [], ◌∷◌, arith, Text, text_eq, text_eq_refl, text_eq→eq, Bool-cases,
}
use lap_guard.Notify.Limiter.{Limiter, new_limiter, lookup, allow, too_soon}

abbrev noted : Bool → Bool → ℕ → List ℕ → List ℕ
noted true true now out = now ∷ out
noted true false now out = out
noted false _ now out = out

-- Calls of a limiter, each a time and a key, and the times at which it let `key` through, newest
-- first.
unfoldable pub allow_all : Text → List (ℕ × Text) → Limiter → List ℕ → Limiter × List ℕ
allow_all key [] l out = (l, out)
allow_all key ((now, k) ∷ rest) l out =
    let r = allow now k l in allow_all key rest r.0 (noted r.1 (text_eq key k) now out)

-- Each time is at least the cooldown after the one before it.
abbrev pub Spaced : ℤ → List ℕ → Type 0
Spaced cooldown [] = Unit
Spaced cooldown (t ∷ []) = Unit
Spaced cooldown (t ∷ u ∷ rest) = (cooldown ≤ℤ sub_ℕ t u) × Spaced cooldown (u ∷ rest)

abbrev newest : List ℕ → Option ℕ
newest [] = none
newest (t ∷ rest) = some t

noted-other : (ok : Bool) (now : ℕ) (out : List ℕ) → noted ok false now out ≡ out
noted-other true now out = refl
noted-other false now out = refl

record Good (key : Text) (cooldown : ℤ) (l : Limiter) (out : List ℕ) : Type 0 where
  kept : l.cooldown ≡ cooldown
  known : lookup key l.last ≡ newest out
  spaced : Spaced cooldown out

-- A call for another key leaves the entry of `key` alone.
allow-other :
    (key : Text) (now : ℕ) (k : Text) (l : Limiter)
    → text_eq key k ≡ false
    → (lookup key (allow now k l).0.last ≡ lookup key l.last)
      × ((allow now k l).0.cooldown ≡ l.cooldown)
unfolding allow lookup
allow-other key now k l e = ground arith

Spaced-add :
    (cooldown : ℤ) (now : ℕ) (out : List ℕ)
    → too_soon cooldown now (newest out) ≡ false
    → Spaced cooldown out
    → Spaced cooldown (now ∷ out)
Spaced-add cooldown now [] e s = tt
Spaced-add cooldown now (t ∷ rest) e s = (ground arith, s)

allow-cases :
    (now : ℕ) (k : Text) (l : Limiter)
    → (allow now k l ≡ (l, false))
      ⊎ ((allow now k l ≡ (record l { last = (k, now) ∷ l.last }, true))
          × (too_soon l.cooldown now (lookup k l.last) ≡ false))
unfolding allow
allow-cases now k l = ground arith

allow-same :
    (key : Text) (cooldown : ℤ) (now : ℕ) (l : Limiter) (out : List ℕ)
    → Good key cooldown l out
    → let r = allow now key l in Good key cooldown r.0 (noted r.1 true now out)
unfolding lookup
allow-same key cooldown now l out g = elim (allow-cases now key l) [
  | inl e ↦ rw e g
  | inr (e, h) ↦ rw e (record {
    kept = g.kept;
    known = rw (text_eq_refl key) refl;
    spaced = Spaced-add cooldown now out (cc (h, g.kept, g.known)) g.spaced;
  })
]

allow-Good :
    (key : Text) (cooldown : ℤ) (now : ℕ) (k : Text) (l : Limiter) (out : List ℕ)
    → Good key cooldown l out
    → let r = allow now k l in Good key cooldown r.0 (noted r.1 (text_eq key k) now out)
allow-Good key cooldown now k l out g = elim (Bool-cases (text_eq key k)) [
  | inl e ↦
      subst
        (λ x. Good key cooldown (allow now x l).0 (noted (allow now x l).1 (text_eq key x) now out))
        (text_eq→eq key k e) (rw (text_eq_refl key) (allow-same key cooldown now l out g))
  | inr e ↦
      rw (e, noted-other (allow now k l).1 now out)
        (let (same, kept) = allow-other key now k l e in
          record { kept = kept ∙ g.kept; known = same ∙ g.known; spaced = g.spaced })
]

allow_all-Good :
    (key : Text) (cooldown : ℤ) (calls : List (ℕ × Text)) (l : Limiter) (out : List ℕ)
    → Good key cooldown l out
    → let r = allow_all key calls l out in Good key cooldown r.0 r.1
unfolding allow_all
allow_all-Good key cooldown [] l out g = g
allow_all-Good key cooldown ((now, k) ∷ rest) l out g =
    allow_all-Good key cooldown rest (allow now k l).0
      (noted (allow now k l).1 (text_eq key k) now out) (allow-Good key cooldown now k l out g)

-- Whatever keys a new limiter is asked for, and at whatever times, the times at which it lets one
-- key through are at least its cooldown apart; and the cooldown is above zero.
pub allow_all-Spaced :
    (cooldown : ℤ) (key : Text) (calls : List (ℕ × Text))
    → let l = new_limiter cooldown in
      Spaced l.cooldown (allow_all key calls l []).1 × (pos 0 <ℤ l.cooldown)
unfolding new_limiter lookup
allow_all-Spaced cooldown key calls = (
  (allow_all-Good key (new_limiter cooldown).cooldown calls (new_limiter cooldown) []
      (record { kept = refl; known = refl; spaced = tt })).spaced,
  ground arith,
)
