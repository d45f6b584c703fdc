-- ===== src/Config/Auth/Laws.antt =====
-- Which tokens a configuration accepts, before and after a token is made.
use mathlib.Core.Path.{subst}
use lap_guard.Base.{
  Bool-cases, ◌&&◌, not, ap, ◌∙◌, ◌≡◌, refl, ◌↔◌, ◌⊎◌, inl, inr, true, false, Option, none, some,
  [], Text, text_eq, text_eq→eq, text_eq_refl, trim_space, arith,
}
use lap_guard.Config.{AuthConfig}
use lap_guard.Config.Normalize.{normalize_auth}
use lap_guard.Config.Auth.{
  verify, verify_token, set_token, generate_token, rotate_token, ensure_auth_token, present, minted,
  no_randomness,
}

-- What the digest is relied on for: it is a non-empty text without blanks at its ends.
pub record IsDigest (hash : Text → Text) : Type 0 where
  pub trimmed : (t : Text) → trim_space (hash t) ≡ hash t
  pub filled : (t : Text) → text_eq (hash t) [] ≡ false

eq→text_eq : {s t : Text} → s ≡ t → text_eq s t ≡ true
eq→text_eq {s} {t} e = subst (λ x. text_eq s x ≡ true) e (text_eq_refl s)

-- A stored digest is compared with that of the text shown, blanks at the ends aside.
verify-digest :
    (hash : Text → Text) (stored token other : Text)
    → IsDigest hash
    → trim_space stored ≡ hash token
    → text_eq (trim_space other) [] ≡ false
    → verify hash stored other ≡ text_eq (hash (trim_space other)) (hash token)
unfolding verify
verify-digest hash stored token other d e n = rw (e, n, d.filled token) refl

-- The configuration has authentication on and stores the digest of a token.
record Holds (hash : Text → Text) (token : Text) (a : AuthConfig) : Type 0 where
  enabled : a.enabled ≡ true
  stored : trim_space a.token_hash ≡ hash token

trim_twice :
    (hash : Text → Text) (token : Text)
    → IsDigest hash
    → trim_space (trim_space (hash token)) ≡ hash token
trim_twice hash token d = ap trim_space (d.trimmed token) ∙ d.trimmed token

generate_token-Holds :
    (hash : Text → Text) (token now : Text) (a : AuthConfig)
    → IsDigest hash
    → Holds hash token (generate_token hash (some token) now a).0
unfolding generate_token set_token normalize_auth
generate_token-Holds hash token now a d = record {
  enabled = refl;
  stored = trim_twice hash token d;
}

rotate_token-Holds :
    (hash : Text → Text) (token now : Text) (a : AuthConfig)
    → IsDigest hash
    → Holds hash token (rotate_token hash (some token) now a).0
unfolding rotate_token set_token
rotate_token-Holds hash token now a d =
    elim (Bool-cases (text_eq (trim_space a.token_hash) [] && not a.enabled)) [
      | inl e ↦ rw e (generate_token-Holds hash token now a d)
      | inr e ↦ rw e (record { enabled = refl; stored = d.trimmed token })
    ]

Holds-verify :
    (hash : Text → Text) (token : Text) (a : AuthConfig) (other : Text)
    → IsDigest hash
    → Holds hash token a
    → text_eq (trim_space other) [] ≡ false
    → (verify_token hash a other ≡ true) ↔ (hash (trim_space other) ≡ hash token)
unfolding verify_token
Holds-verify hash token a other d h n =
    rw (h.enabled, verify-digest hash a.token_hash token other d h.stored n)
      (text_eq→eq (hash (trim_space other)) (hash token), eq→text_eq)

-- After a rotation, whatever the configuration was, authentication is on and a text that is not
-- blank is accepted exactly where its digest, blanks at its ends aside, is that of the new token.
pub rotate_token_lem :
    (hash : Text → Text) (token now : Text) (a : AuthConfig) (other : Text)
    → IsDigest hash
    → text_eq (trim_space other) [] ≡ false
    → let b = (rotate_token hash (some token) now a).0 in
      (b.enabled ≡ true)
      × ((verify_token hash b other ≡ true) ↔ (hash (trim_space other) ≡ hash token))
rotate_token_lem hash token now a other d n =
    let h = rotate_token-Holds hash token now a d in
    (h.enabled, Holds-verify hash token (rotate_token hash (some token) now a).0 other d h n)

ensure_minted :
    (hash : Text → Text) (fresh : Option Text) (now : Text) (a : AuthConfig) {token : Text}
    → (ensure_auth_token hash fresh now a).1 ≡ minted token
    → (ensure_auth_token hash fresh now a).0 ≡ (generate_token hash (some token) now a).0
unfolding ensure_auth_token generate_token
ensure_minted hash none now a e = ground arith
ensure_minted hash (some t) now a e = ground arith

ensure_unchanged :
    (hash : Text → Text) (fresh : Option Text) (now : Text) (a : AuthConfig)
    → let r = ensure_auth_token hash fresh now a in
      ((r.1 ≡ present)
        → (r.0 ≡ a) × ((a.enabled ≡ false) ⊎ (text_eq (trim_space a.token_hash) [] ≡ false)))
      × ((r.1 ≡ no_randomness) → (r.0 ≡ a) × (fresh ≡ none))
unfolding ensure_auth_token generate_token
ensure_unchanged hash none now a = (λ e. ground arith, λ e. ground arith)
ensure_unchanged hash (some t) now a = (λ e. ground arith, λ e. ground arith)

generate_token-verify :
    (hash : Text → Text) (token now : Text) (a : AuthConfig)
    → IsDigest hash
    → trim_space token ≡ token
    → text_eq token [] ≡ false
    → verify_token hash (generate_token hash (some token) now a).0 token ≡ true
generate_token-verify hash token now a d t n =
    (Holds-verify hash token (generate_token hash (some token) now a).0 token d
        (generate_token-Holds hash token now a d) (rw t n)).1
      (ap hash t)

-- After `EnsureAuthToken`, authentication is off as before, or a digest is stored, or the random
-- source failed and nothing changed; a token that it made is accepted, where it has no blanks at its
-- ends and is not empty.
pub ensure_auth_token_lem :
    (hash : Text → Text) (fresh : Option Text) (now : Text) (a : AuthConfig)
    → IsDigest hash
    → let r = ensure_auth_token hash fresh now a in
      ((r.1 ≡ present)
        → (r.0 ≡ a) × ((a.enabled ≡ false) ⊎ (text_eq (trim_space a.token_hash) [] ≡ false)))
      × ((r.1 ≡ no_randomness) → (r.0 ≡ a) × (fresh ≡ none))
      × ((token : Text)
          → r.1 ≡ minted token
          → trim_space token ≡ token
          → text_eq token [] ≡ false
          → verify_token hash r.0 token ≡ true)
ensure_auth_token_lem hash fresh now a d =
    let (kept, dry) = ensure_unchanged hash fresh now a in
    (
      kept,
      dry,
      λ token e t n.
          rw (ensure_minted hash fresh now a e) (generate_token-verify hash token now a d t n),
    )
