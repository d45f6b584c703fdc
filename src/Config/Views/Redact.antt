-- ===== src/Config/Views/Redact.antt =====
-- What the log shows: internal/config/redact.go and LooksLikeToken of internal/auth/token.go. The
-- two regular expressions are parameters.
pub mod Laws
use lap_guard.Base.{
  ℕ, ltb, ◌<◌, Bool, true, false, ◌&&◌, ◌||◌, List, [], ◌∷◌, Text, codes, text_eq, trim_space,
  to_lower, contains, has_prefix, len_bytes, if◌then◌else◌, ◌==◌,
}

-- `bearerRe` and `lgTokenRe`, each with what replaces its matches.
pub record Patterns : Type 0 where
  pub replace_bearer : Text → Text
  pub replace_token : Text → Text

abbrev pub redacted : Text
redacted = codes "[redacted]"

unfoldable pub looks_like_token : Text → Bool
looks_like_token s =
    let t = trim_space s in if has_prefix t (codes "lg_") then ltb 19 (len_bytes t) else false

unfoldable pub redact_string : Patterns → Text → Text
unfolding looks_like_token
redact_string r s =
    if contains s (codes "://")
    then redacted
    else (let shown = r.replace_token (r.replace_bearer s) in
        if looks_like_token shown then redacted else shown)

abbrev pub secret_key_fragments : List Text
secret_key_fragments =
    codes "webhook"
    ∷ codes "token"
    ∷ codes "password"
    ∷ codes "secret"
    ∷ codes "authorization"
    ∷ codes "api_key"
    ∷ codes "apikey"
    ∷ codes "chat_id"
    ∷ []

-- `strings.ReplaceAll(k, "-", "_")`.
underscored : Text → Text
underscored [] = []
underscored (c ∷ s) = (if c == b'-' then b'_' else c) ∷ underscored s

has_fragment : Text → List Text → Bool
has_fragment k [] = false
has_fragment k (frag ∷ rest) = (text_eq k frag || contains k frag) || has_fragment k rest

unfoldable pub secret_key : Text → Bool
unfolding underscored has_fragment
secret_key key = has_fragment (underscored (to_lower (trim_space key))) secret_key_fragments

-- A value of the log once it is resolved: a string, also one held as `any`; a group; or another
-- value, such as a number or an error, by the text that the sink shows of it.
mutual
  pub data Value : Type 0 where
    string : Text → Value
    group : Attrs → Value
    other : Text → Value

  pub data Attrs : Type 0 where
    no_attrs : Attrs
    attr : Text → Value → Attrs → Attrs

-- `redactAttr`, and its loop over a group.
unfoldable mutual
  pub redact_value : Patterns → Value → Value
  redact_value r (string s) = string (redact_string r s)
  redact_value r (group members) = group (redact_attrs r members)
  redact_value r (other s) = other s

  pub redact_attrs : Patterns → Attrs → Attrs
  redact_attrs r no_attrs = no_attrs
  redact_attrs r (attr key v rest) =
      attr key (if secret_key key then string redacted else redact_value r v) (redact_attrs r rest)

-- A record of the log: `Handle`.
pub record LogRecord : Type 0 where
  pub message : Text
  pub attrs : Attrs

unfoldable pub handle : Patterns → LogRecord → LogRecord
unfolding redact_string
handle r l = record { message = redact_string r l.message; attrs = redact_attrs r l.attrs }
