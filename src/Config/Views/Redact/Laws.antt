-- ===== src/Config/Views/Redact/Laws.antt =====
-- What a log that has passed the redaction can hold.
use lap_guard.Base.{
  ◌≡◌, ◌⊎◌, inl, inr, refl, Bool, true, false, Text, codes, contains, has_prefix, trim_space,
  Bool-cases, if◌then◌else◌,
}
use lap_guard.Config.Views.Redact.{
  Patterns, Value, Attrs, LogRecord, redacted, looks_like_token, redact_string, secret_key,
  redact_value, redact_attrs, handle, string, group, other, no_attrs, attr,
}

-- A text without a URL and without a match of the token's pattern, which is no token as a whole.
abbrev pub IsSafeText : (Text → Bool) → Text → Type 0
IsSafeText has_token s =
    (contains s (codes "://") ≡ false) × (has_token s ≡ false) × (looks_like_token s ≡ false)

-- At every depth each string is safe, and what stands under a secret key is the redaction mark.
mutual
  pub IsSafeValue : (Text → Bool) → Value → Type 0
  IsSafeValue has_token (string s) = IsSafeText has_token s
  IsSafeValue has_token (group members) = AreSafe has_token members
  IsSafeValue has_token (other s) = Unit

  pub AreSafe : (Text → Bool) → Attrs → Type 0
  AreSafe has_token no_attrs = Unit
  AreSafe has_token (attr key v rest) =
      ((secret_key key ≡ false) ⊎ (v ≡ string redacted))
      × (IsSafeValue has_token v × AreSafe has_token rest)

-- What is replaced in a text brings no URL into it.
abbrev pub AddsNoUrl : (Text → Text) → Type 0
AddsNoUrl f = (s : Text) → contains s (codes "://") ≡ false → contains (f s) (codes "://") ≡ false

-- What is documented of `lgTokenRe` and `ReplaceAllString`: no match is left, and the replacement
-- mark is none. Neither pattern's replacement brings in a URL.
pub record IsLawful (has_token : Text → Bool) (r : Patterns) : Type 0 where
  pub bearer_url : AddsNoUrl r.replace_bearer
  pub token_url : AddsNoUrl r.replace_token
  pub none_left : (s : Text) → has_token (r.replace_token s) ≡ false
  pub mark : has_token redacted ≡ false

module _ (has_token : Text → Bool) (r : Patterns) (law : IsLawful has_token r) where
  redacted-IsSafeText : IsSafeText has_token redacted
  unfolding contains has_prefix looks_like_token trim_space
  redacted-IsSafeText = (refl, law.mark, refl)

  if_safe :
      (taken : Bool) (shown : Text)
      → looks_like_token shown ≡ taken
      → contains shown (codes "://") ≡ false
      → has_token shown ≡ false
      → IsSafeText has_token (if taken then redacted else shown)
  if_safe true shown h c t = redacted-IsSafeText
  if_safe false shown h c t = (c, t, h)

  redact_string-IsSafeText : (s : Text) → IsSafeText has_token (redact_string r s)
  unfolding redact_string
  redact_string-IsSafeText s = elim (Bool-cases (contains s (codes "://"))) [
    | inl e ↦ rw e redacted-IsSafeText
    | inr e ↦
        let shown = r.replace_token (r.replace_bearer s) in
        rw e (
          if_safe (looks_like_token shown) shown refl
            (law.token_url (r.replace_bearer s) (law.bearer_url s e))
            (law.none_left (r.replace_bearer s)))
  ]

  mutual
    unfolding redact_value redact_attrs IsSafeValue AreSafe

    redact_value-IsSafe : (v : Value) → IsSafeValue has_token (redact_value r v)
    redact_value-IsSafe (string s) = redact_string-IsSafeText s
    redact_value-IsSafe (group members) = redact_attrs-AreSafe members
    redact_value-IsSafe (other s) = tt

    redact_attrs-AreSafe : (l : Attrs) → AreSafe has_token (redact_attrs r l)
    redact_attrs-AreSafe no_attrs = tt
    redact_attrs-AreSafe (attr key v rest) = elim (Bool-cases (secret_key key)) [
      | inl e ↦ rw e (inr refl, (redacted-IsSafeText, redact_attrs-AreSafe rest))
      | inr e ↦ rw e (inl refl, (redact_value-IsSafe v, redact_attrs-AreSafe rest))
    ]

  -- A record of the log that has passed the handler holds, in its message and in any string of its
  -- attributes, however deep in groups, no URL and nothing that the token's pattern finds, and is no
  -- token as a whole; under a key that names a secret it holds only the redaction mark. The patterns
  -- are lawful. (Values that are no strings are left as they are.)
  pub handle-IsSafe :
      (l : LogRecord)
      → IsSafeText has_token (handle r l).message × AreSafe has_token (handle r l).attrs
  unfolding handle
  handle-IsSafe l = (redact_string-IsSafeText l.message, redact_attrs-AreSafe l.attrs)
