-- ===== src/Base/Trims.antt =====
-- Trimming and lowering a text twice is doing it once.
use Prim.Native.Nat.{ℕ}
use mathlib.Core.Path.{◌≡◌, refl, sym, ap, ◌∙◌, subst}
use mathlib.Core.Bool.{false}
use mathlib.Core.Logic.{inl, inr}
use mathlib.Core.List.{[], ◌∷◌, ◌++◌, reverse, reverse-append, reverse-cons, reverse-reverse}
use native.Mathlib.Omega.{arith}
use lap_guard.Base.Tests.{Bool-cases}
use lap_guard.Base.Texts.{Text, is_space, trim_left, trim_space, lower, to_lower}

-- The text begins with no space.
abbrev IsFlush : Text → Type 0
IsFlush [] = Unit
IsFlush (c ∷ s) = is_space c ≡ false

trim_left-IsFlush : (s : Text) → IsFlush (trim_left s)
unfolding trim_left
trim_left-IsFlush [] = tt
trim_left-IsFlush (c ∷ s) = elim (Bool-cases (is_space c)) [
  | inl h ↦ rw h (trim_left-IsFlush s)
  | inr h ↦ rw h h
]

flush-trim_left : (s : Text) → IsFlush s → trim_left s ≡ s
unfolding trim_left
flush-trim_left [] h = refl
flush-trim_left (c ∷ s) h = rw h refl

-- What `trim_left` takes away stands before what it leaves.
trim_left_split : (s : Text) → (cut : Text) × (s ≡ cut ++ trim_left s)
unfolding trim_left
trim_left_split [] = ([], refl)
trim_left_split (c ∷ s) = elim (Bool-cases (is_space c)) [
  | inl h ↦ let (cut, e) = trim_left_split s in (c ∷ cut, rw h (ap (λ t. c ∷ t) e))
  | inr h ↦ ([], rw h refl)
]

append-IsFlush : (s t : Text) → IsFlush (s ++ t) → IsFlush s
append-IsFlush [] t h = tt
append-IsFlush (c ∷ s) t h = h

-- The last step of `trim_space` on a flush text leaves it flush.
trim_end-IsFlush : (u : Text) → IsFlush u → IsFlush (reverse (trim_left (reverse u)))
trim_end-IsFlush u h =
    let (cut, e) = trim_left_split (reverse u) in
    let whole : u ≡ reverse (trim_left (reverse u)) ++ reverse cut =
      sym (reverse-reverse u) ∙ ap reverse e ∙ reverse-append cut (trim_left (reverse u)) in
    append-IsFlush (reverse (trim_left (reverse u))) (reverse cut) (subst IsFlush whole h)

pub trim_space_idem : (s : Text) → trim_space (trim_space s) ≡ trim_space s
unfolding trim_space
trim_space_idem s =
    let v = trim_left (reverse (trim_left s)) in
    rw
      (
        flush-trim_left (reverse v) (trim_end-IsFlush (trim_left s) (trim_left-IsFlush s)),
        reverse-reverse v,
        flush-trim_left v (trim_left-IsFlush (reverse (trim_left s))),
      )
      refl

lower-is_space : (c : ℕ) → is_space (lower c) ≡ is_space c
unfolding lower is_space
lower-is_space c = ground arith

lower_idem : (c : ℕ) → lower (lower c) ≡ lower c
unfolding lower
lower_idem c = ground arith

pub to_lower_idem : (s : Text) → to_lower (to_lower s) ≡ to_lower s
unfolding to_lower
to_lower_idem [] = refl
to_lower_idem (c ∷ s) = rw (lower_idem c, to_lower_idem s) refl

to_lower-trim_left : (s : Text) → to_lower (trim_left s) ≡ trim_left (to_lower s)
unfolding to_lower trim_left
to_lower-trim_left [] = refl
to_lower-trim_left (c ∷ s) = elim (Bool-cases (is_space c)) [
  | inl h ↦ rw (lower-is_space c, h) (to_lower-trim_left s)
  | inr h ↦ rw (lower-is_space c, h) refl
]

to_lower-append : (s t : Text) → to_lower (s ++ t) ≡ to_lower s ++ to_lower t
unfolding to_lower
to_lower-append [] t = refl
to_lower-append (c ∷ s) t = rw (to_lower-append s t) refl

to_lower-reverse : (s : Text) → to_lower (reverse s) ≡ reverse (to_lower s)
unfolding to_lower
to_lower-reverse [] = refl
to_lower-reverse (c ∷ s) =
    rw
      (
        reverse-cons c s,
        to_lower-append (reverse s) (c ∷ []),
        to_lower-reverse s,
        reverse-cons (lower c) (to_lower s),
      )
      refl

to_lower-trim_space : (s : Text) → to_lower (trim_space s) ≡ trim_space (to_lower s)
unfolding trim_space
to_lower-trim_space s =
    rw
      (
        to_lower-reverse (trim_left (reverse (trim_left s))),
        to_lower-trim_left (reverse (trim_left s)),
        to_lower-reverse (trim_left s),
        to_lower-trim_left s,
      )
      refl

-- A name as the settings keep it: trimmed, in lower case.
abbrev pub clean : Text → Text
clean s = to_lower (trim_space s)

pub clean_idem : (s : Text) → clean (clean s) ≡ clean s
clean_idem s =
    rw (to_lower-trim_space (clean s), to_lower_idem (trim_space s))
      (rw (to_lower-trim_space s) (trim_space_idem (to_lower s)))
