-- ===== src/Api/Server/Router/Laws.antt =====
-- What requests can do to the server, whichever route they take.
use lap_guard.Base.{◌≡◌, ◌⊎◌, inl, inr, refl, true, false, none, some, [], Text}
use lap_guard.Config.{AuthConfig}
use lap_guard.Config.Auth.{verify_token}
use lap_guard.Api.Protect.{
  Passage, handled, forbidden, unsupported_media, unauthorized, secure_write, secure_auth_admin,
  origin_allowed, require_json, bearer_token, is_loopback,
}
use lap_guard.Api.Protect.Laws.{secure_write_lem, secure_auth_admin_lem}
use lap_guard.Api.Server.{Server, Served}
use lap_guard.Api.Server.Router.{
  Machine, Route, Request, reading, writing, admin, passed, serve, handle_writing, handle_admin,
}

-- What `secureWrite` asks of a request while authentication is on.
pub record IsAuthorised (m : Machine) (a : AuthConfig) (r : Request) : Type 0 where
  pub origin : origin_allowed m.parsers r.parts ≡ true
  pub json : require_json m.parsers r.parts ≡ true
  pub no_query_token : r.parts.query_token ≡ false
  pub bearer :
      ((token : Text) × (bearer_token r.parts ≡ some token) × (verify_token m.hash a token ≡ true))
      ⊎ ((bearer_token r.parts ≡ none)
          × (a.allow_loopback_no_token ≡ true)
          × (is_loopback m.parsers r.parts ≡ true))

-- Nothing has changed, and nothing was run.
abbrev pub IsUntouched : Server → Served → Type 0
IsUntouched s served = (served.server ≡ s) × (served.effects ≡ [])

passed-cases :
    (p : Passage) (s : Server) (served : Served) → IsUntouched s (passed p s served) ⊎ (p ≡ handled)
passed-cases handled s served = inr refl
passed-cases forbidden s served = inl (refl, refl)
passed-cases unsupported_media s served = inl (refl, refl)
passed-cases unauthorized s served = inl (refl, refl)

write-IsAuthorised :
    (m : Machine) (a : AuthConfig) (r : Request)
    → a.enabled ≡ true
    → secure_write m.parsers m.hash a r.parts ≡ handled
    → IsAuthorised m a r
write-IsAuthorised m a r on h =
    let (origin, json, plain, bearer) = (secure_write_lem m.parsers m.hash a r.parts on).0 h in
    record { origin = origin; json = json; no_query_token = plain; bearer = bearer }

admin_as_write :
    (m : Machine) (a : AuthConfig) (r : Request)
    → a.enabled ≡ true
    → secure_auth_admin m.parsers m.hash a r.parts ≡ handled
    → secure_write m.parsers m.hash a r.parts ≡ handled
admin_as_write m a r on h = elim ((secure_auth_admin_lem m.parsers m.hash a r.parts).0 h) [
  | inl (w, e) ↦ w
  | inr (off, _, _, _) ↦ cc
]

or_authorised : {A B C : Type 0} → A ⊎ B → (B → C) → A ⊎ C
or_authorised (inl a) f = inl a
or_authorised (inr b) f = inr (f b)

-- While authentication is on: whichever route a request takes, either it leaves the settings, the
-- smart drain, the safety controller and the guard of the actions as they were and runs nothing,
-- or it came from an allowed origin as JSON, without a token in its URL, and with a bearer token
-- that verifies or, where the settings allow it, without any from the machine itself.
pub serve_guarded :
    (m : Machine) (route : Route) (r : Request) (s : Server)
    → s.cfg.auth.enabled ≡ true
    → IsUntouched s (serve m route r s) ⊎ IsAuthorised m s.cfg.auth r
unfolding serve
serve_guarded m (reading view) r s on = inl (refl, refl)
serve_guarded m (writing w) r s on =
    or_authorised
      (passed-cases (secure_write m.parsers m.hash s.cfg.auth r.parts) s (handle_writing m w r s))
      (write-IsAuthorised m s.cfg.auth r on)
serve_guarded m (admin a) r s on =
    or_authorised
      (passed-cases (secure_auth_admin m.parsers m.hash s.cfg.auth r.parts) s (handle_admin m a s))
      λ h. write-IsAuthorised m s.cfg.auth r on (admin_as_write m s.cfg.auth r on h)
