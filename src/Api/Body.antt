-- ===== src/Api/Body.antt =====
-- How a handler reads the body of a request: `decodeObject` of internal/api/config.go. Go's JSON
-- decoder, which refuses unknown fields and what follows the object, is a parameter.
use lap_guard.Base.{
  ℕ, ◌==◌, ltb, Option, none, some, [], ◌∷◌, Text, trim_space, len_bytes, if◌then◌else◌,
}

abbrev pub max_config_body : ℕ
max_config_body = 65536

-- `decodeObjectBytes`
unfoldable pub decode_object_bytes {ℓ} : {A : Type ℓ} → (Text → Option A) → Text → Option A
decode_object_bytes json [] = none
decode_object_bytes json (c ∷ s) = if c == b'{' then json (c ∷ s) else none

-- `none` is a body that cannot be read, and ErrMalformedJSON.
unfoldable pub decode_object {ℓ} : {A : Type ℓ} → (Text → Option A) → Option Text → Option A
unfolding decode_object_bytes
decode_object json none = none
decode_object json (some raw) =
    if ltb max_config_body (len_bytes raw) then none else decode_object_bytes json (trim_space raw)
