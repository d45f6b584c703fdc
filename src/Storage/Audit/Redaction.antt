-- ===== src/Storage/Audit/Redaction.antt =====
-- What a stored reason never holds.
use lap_guard.Base.{
  ℕ, ◌-◌, ◌≤◌, ltb, ◌≡◌, refl, ap, Bool, true, false, ◌||◌, List, [], ◌∷◌, Text, codes, to_lower,
  lower, trim_space, contains, has_prefix, len_bytes, arith, if◌then◌else◌, Bool-cases, inl, inr,
}
use lap_guard.Storage.Audit.{
  redacted, needles, contains_one, width, first_bytes, sanitize_audit_text,
}

first_bytes-len_bytes : (n : ℕ) (s : Text) → len_bytes (first_bytes n s) ≤ n
unfolding first_bytes len_bytes
first_bytes-len_bytes n [] = omega arith
first_bytes-len_bytes n (c ∷ s) = ground (arith, first_bytes-len_bytes (n - width c) s)

-- A text that another begins with.
abbrev Begins : Text → Text → Type 0
Begins [] s = Unit
Begins (c ∷ t) [] = ⊥
Begins (c ∷ t) (d ∷ s) = (c ≡ d) × Begins t s

first_bytes-Begins : (n : ℕ) (s : Text) → Begins (first_bytes n s) s
unfolding first_bytes
first_bytes-Begins n [] = tt
first_bytes-Begins n (c ∷ s) = elim (Bool-cases (ltb n (width c))) [
  | inl h ↦ rw h tt
  | inr h ↦ rw h (refl, first_bytes-Begins (n - width c) s)
]

to_lower-Begins : (t s : Text) → Begins t s → Begins (to_lower t) (to_lower s)
unfolding to_lower
to_lower-Begins [] s b = tt
to_lower-Begins (c ∷ t) [] b = elim b [ ]
to_lower-Begins (c ∷ t) (d ∷ s) (e, b) = (ap lower e, to_lower-Begins t s b)

has_prefix-Begins : (t s p : Text) → Begins t s → has_prefix s p ≡ false → has_prefix t p ≡ false
unfolding has_prefix
has_prefix-Begins [] s [] b h = ground arith
has_prefix-Begins [] s (d ∷ p) b h = refl
has_prefix-Begins (c ∷ t) [] p b h = elim b [ ]
has_prefix-Begins (c ∷ t) (d ∷ s) [] b h = h
has_prefix-Begins (c ∷ t) (d ∷ s) (e ∷ p) (q, b) h = ground (arith, has_prefix-Begins t s p b)

contains-empty : (s p : Text) → contains s p ≡ false → has_prefix s p ≡ false
unfolding contains
contains-empty [] p h = h
contains-empty (c ∷ s) p h = ground arith

contains-Begins : (t s p : Text) → Begins t s → contains s p ≡ false → contains t p ≡ false
unfolding contains
contains-Begins [] s p b h = has_prefix-Begins [] s p tt (contains-empty s p h)
contains-Begins (c ∷ t) [] p b h = elim b [ ]
contains-Begins (c ∷ t) (d ∷ s) p (q, b) h =
    ground (arith, has_prefix-Begins (c ∷ t) (d ∷ s) p (q, b), contains-Begins t s p b)

-- A text that says nothing secret: in lower case it holds none of the words, it holds neither a URL's
-- `://` nor a token's `lg_`, and it has at most 200 bytes.
abbrev pub IsClean : Text → Type 0
IsClean t =
    (contains_one (to_lower t) needles ≡ false)
    × (contains t (codes "://") ≡ false)
    × (contains t (codes "lg_") ≡ false)
    × (len_bytes t ≤ 200)

contains_one-Begins :
    (t s : Text) (words : List Text)
    → Begins t s
    → contains_one s words ≡ false
    → contains_one t words ≡ false
unfolding contains_one
contains_one-Begins t s [] b h = h
contains_one-Begins t s (w ∷ words) b h =
    ground (arith, contains-Begins t s w b, contains_one-Begins t s words b)

redacted-IsClean : IsClean redacted
unfolding contains to_lower contains_one has_prefix len_bytes
redacted-IsClean = (refl, refl, refl, omega arith)

branch-IsClean :
    (a b c : Bool) (t : Text)
    → (a ≡ false → b ≡ false → c ≡ false → IsClean t)
    → IsClean (if a then redacted else if b || c then redacted else t)
branch-IsClean true b c t k = redacted-IsClean
branch-IsClean false true c t k = redacted-IsClean
branch-IsClean false false true t k = redacted-IsClean
branch-IsClean false false false t k = k refl refl refl

-- Whatever reason is given, the one that is stored holds none of the words that stand for secrets,
-- in any case, no `://` and no `lg_`, and has at most 200 bytes.
pub sanitize_audit_text-IsClean : (raw : Text) → IsClean (sanitize_audit_text raw)
unfolding sanitize_audit_text
sanitize_audit_text-IsClean raw =
    let s = trim_space raw in
    let t = first_bytes 200 s in
    let begins = first_bytes-Begins 200 s in
    branch-IsClean (contains_one (to_lower s) needles) (contains s (codes "://"))
      (contains s (codes "lg_")) t
      (λ a b c. (
        contains_one-Begins (to_lower t) (to_lower s) needles (to_lower-Begins t s begins) a,
        contains-Begins t s (codes "://") begins b,
        contains-Begins t s (codes "lg_") begins c,
        first_bytes-len_bytes 200 s,
      ))
