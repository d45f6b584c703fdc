-- ===== src/Config/Auth.antt =====
-- API tokens: internal/config/auth.go and Verify of internal/auth/token.go. The SHA-256 digest and
-- the random source are parameters.
mod Laws
mod Examples
use lap_guard.Base.{
  Bool, true, false, ◌&&◌, ◌||◌, not, Option, none, some, [], Text, text_eq, trim_space,
  if◌then◌else◌,
}
use lap_guard.Config.{AuthConfig}
use lap_guard.Config.Normalize.{normalize_auth}

-- `auth.Verify`: texts of different lengths are not equal, so that one comparison says both.
unfoldable pub verify : (Text → Text) → Text → Text → Bool
verify hash stored token =
    let t = trim_space token in
    let h = trim_space stored in if text_eq t [] || text_eq h [] then false else text_eq (hash t) h

unfoldable pub verify_token : (Text → Text) → AuthConfig → Text → Bool
verify_token hash a token = if not a.enabled then false else verify hash a.token_hash token

abbrev or_now : Text → Text → Text
or_now now at = if text_eq at [] then now else at

-- The fields that GenerateToken and RotateToken set; `now` is the time as text.
unfoldable pub set_token : (Text → Text) → Text → Text → AuthConfig → AuthConfig
set_token hash token now a = record a {
  token_hash = hash token;
  enabled = true;
  created_at = or_now now a.created_at;
  last_rotated_at = now;
}

-- `GenerateToken`; `fresh` is what the random source gives, `none` where it fails.
unfoldable pub generate_token :
    (Text → Text) → Option Text → Text → AuthConfig → AuthConfig × Option Text
generate_token hash none now a = (a, none)
generate_token hash (some token) now a = (normalize_auth (set_token hash token now a), some token)

abbrev rotated : (Text → Text) → Option Text → Text → AuthConfig → AuthConfig × Option Text
rotated hash none now a = (a, none)
rotated hash (some token) now a = (set_token hash token now a, some token)

unfoldable pub rotate_token :
    (Text → Text) → Option Text → Text → AuthConfig → AuthConfig × Option Text
rotate_token hash fresh now a =
    if text_eq (trim_space a.token_hash) [] && not a.enabled
    then generate_token hash fresh now a
    else rotated hash fresh now a

unfoldable pub disable_auth : AuthConfig → AuthConfig
disable_auth a = record a { enabled = false }

-- What `EnsureAuthToken` comes to.
pub data Ensured : Type 0 where
  present : Ensured
  minted : Text → Ensured
  no_randomness : Ensured

abbrev ensured : AuthConfig × Option Text → AuthConfig × Ensured
ensured (a, none) = (a, no_randomness)
ensured (a, some token) = (a, minted token)

unfoldable pub ensure_auth_token :
    (Text → Text) → Option Text → Text → AuthConfig → AuthConfig × Ensured
ensure_auth_token hash fresh now a =
    if not a.enabled
    then (a, present)
    else if not (text_eq (trim_space a.token_hash) [])
    then (a, present)
    else ensured (generate_token hash fresh now a)

pub record AuthView : Type 0 where
  pub auth_enabled : Bool
  pub token_configured : Bool
  pub allow_loopback_no_token : Bool
  pub token_created_at : Text
  pub last_rotated_at : Text
  pub protect_get : Bool

unfoldable pub view : AuthConfig → AuthView
view a = record {
  auth_enabled = a.enabled;
  token_configured = not (text_eq (trim_space a.token_hash) []);
  allow_loopback_no_token = a.allow_loopback_no_token;
  token_created_at = a.created_at;
  last_rotated_at = a.last_rotated_at;
  protect_get = false;
}
