-- ===== src/Api/Protect/Examples.antt =====
-- A request from the machine itself, and one that carries a token.
use lap_guard.Base.{
  ◌≡◌, ◌↔◌, ◌⊎◌, refl, true, false, none, some, [], ◌∷◌, Text, codes, text_eq, trim_space, to_lower,
}
use lap_guard.Config.{default_auth}
use lap_guard.Config.Auth.{verify, verify_token}
use lap_guard.Api.Protect.{
  Request, Parsers, origin_allowed, require_json, bearer_token, secure_write, handled, is_loopback,
  unauthorized, require_auth,
}
use lap_guard.Api.Protect.Laws.{secure_write_lem}

-- Stand-ins for the parsers, good for the requests below.
abbrev parsers : Parsers
parsers = record {
  url_host = λ u. none;
  media_type = λ h. some h;
  host_of = λ t. some (codes "127.0.0.1");
  loopback_ip = λ t. text_eq t (codes "127.0.0.1");
}

abbrev local : Request
local = record {
  origin = [];
  host = codes "127.0.0.1:8585";
  content_type = codes "application/json";
  query_token = false;
  authorization = [];
  remote = codes "127.0.0.1:50000";
}

abbrev same : Text → Text
same t = t

local_passes : secure_write parsers same default_auth local ≡ handled
unfolding secure_write origin_allowed require_json require_auth bearer_token is_loopback text_eq
    trim_space to_lower
local_passes = refl

wrong_token :
    secure_write parsers same default_auth
      (record local { authorization = codes "bearer lg_x" ∷ [] })
    ≡ unauthorized
unfolding secure_write origin_allowed require_json require_auth bearer_token is_loopback text_eq
    trim_space to_lower verify_token verify
wrong_token = refl

secure_write_lem_example : (secure_write parsers same default_auth local ≡ handled) ↔ (
    (origin_allowed parsers local ≡ true)
    × (require_json parsers local ≡ true)
    × (local.query_token ≡ false)
    × (((token : Text) × (bearer_token local ≡ some token)
          × (verify_token same default_auth token ≡ true))
        ⊎ ((bearer_token local ≡ none)
            × (default_auth.allow_loopback_no_token ≡ true)
            × (is_loopback parsers local ≡ true))))
secure_write_lem_example = secure_write_lem parsers same default_auth local refl
