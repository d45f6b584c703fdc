-- ===== src/Api/Protect/Laws.antt =====
-- Which requests reach a handler that changes state.
use lap_guard.Base.{◌≡◌, ◌↔◌, ◌⊎◌, true, false, none, some, Text, arith}
use lap_guard.Config.{AuthConfig}
use lap_guard.Config.Auth.{verify_token}
use lap_guard.Api.Protect.{
  is_loopback, Request, Parsers, origin_allowed, require_json, bearer_token, require_auth, handled,
  secure_write, secure_auth_admin,
}

-- While authentication is on, a request reaches a handler that changes state only without a token
-- in its URL, and with a bearer token that verifies; or, where the settings allow it, without any
-- bearer token from the machine itself.
pub secure_write_lem :
    (p : Parsers) (hash : Text → Text) (a : AuthConfig) (r : Request)
    → a.enabled ≡ true
    → (secure_write p hash a r ≡ handled) ↔ (
        (origin_allowed p r ≡ true)
        × (require_json p r ≡ true)
        × (r.query_token ≡ false)
        × (((token : Text) × (bearer_token r ≡ some token) × (verify_token hash a token ≡ true))
            ⊎ ((bearer_token r ≡ none)
                × (a.allow_loopback_no_token ≡ true)
                × (is_loopback p r ≡ true))))
unfolding secure_write require_auth
secure_write_lem p hash a r on = (λ h. ground arith, λ h. ground arith)

-- Turning authentication off does not open the routes that manage it: a request reaches them only
-- from the machine itself, or with authentication on and as `secureWrite` would let it through.
pub secure_auth_admin_lem :
    (p : Parsers) (hash : Text → Text) (a : AuthConfig) (r : Request)
    → (secure_auth_admin p hash a r ≡ handled)
      ↔ ((secure_write p hash a r ≡ handled) × (a.enabled ≡ true))
        ⊎ ((a.enabled ≡ false)
            × (is_loopback p r ≡ true)
            × (origin_allowed p r ≡ true)
            × (require_json p r ≡ true))
unfolding secure_auth_admin secure_write
secure_auth_admin_lem p hash a r = (λ h. ground arith, λ h. ground arith)
