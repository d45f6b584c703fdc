-- ===== src/Api/Protect.antt =====
-- What stands before every handler that changes state: internal/api/protect.go.
pub mod Laws
mod Examples
use lap_guard.Base.{
  ltb, Bool, true, false, ◌&&◌, ◌||◌, not, Option, none, some, List, [], ◌∷◌, Text, codes, text_eq,
  to_lower, trim_space, mem_text, if◌then◌else◌,
}
use lap_guard.Config.{AuthConfig}
use lap_guard.Config.Auth.{verify_token}

-- What the middleware reads of a request. `query_token` says whether the URL carries a parameter
-- `token` or `access_token`; `remote` is the address of the peer.
pub record Request : Type 0 where
  pub origin : Text
  pub host : Text
  pub content_type : Text
  pub query_token : Bool
  pub authorization : List Text
  pub remote : Text

-- Go's library, which the middleware calls: `url_host` is the host of a URL that parses,
-- `media_type` the media type of a header that parses, `host_of` the host of a pair of host and
-- port, and `loopback_ip` whether a text is an IP address that loops back.
pub record Parsers : Type 0 where
  pub url_host : Text → Option Text
  pub media_type : Text → Option Text
  pub host_of : Text → Option Text
  pub loopback_ip : Text → Bool

abbrev pub local_dev_origins : List Text
local_dev_origins =
    codes "http://127.0.0.1:5173"
    ∷ codes "http://localhost:5173"
    ∷ codes "http://127.0.0.1:4173"
    ∷ codes "http://localhost:4173"
    ∷ []

abbrev equal_fold : Text → Text → Bool
equal_fold s t = text_eq (to_lower s) (to_lower t)

-- `strings.TrimRight(s, "/")`
pub trim_slashes : Text → Text
trim_slashes [] = []
trim_slashes (c ∷ rest) =
    let tail = trim_slashes rest in
    if text_eq tail [] && text_eq (c ∷ []) (codes "/") then [] else c ∷ tail

abbrev host_matches : Option Text → Text → Bool
host_matches none host = false
host_matches (some h) host = if text_eq h [] then false else equal_fold h host

unfoldable pub origin_explicitly_allowed : Parsers → Text → Text → Bool
unfolding trim_slashes
origin_explicitly_allowed p origin host =
    if mem_text (trim_slashes origin) local_dev_origins
    then true
    else host_matches (p.url_host origin) host

unfoldable pub origin_allowed : Parsers → Request → Bool
origin_allowed p r =
    let origin = trim_space r.origin in
    if text_eq origin [] then true else origin_explicitly_allowed p origin r.host

abbrev is_json : Option Text → Bool
is_json none = false
is_json (some media) = equal_fold media (codes "application/json")

unfoldable pub require_json : Parsers → Request → Bool
require_json p r =
    if text_eq r.content_type [] then false else is_json (p.media_type r.content_type)

-- `after prefix s`: the rest of `s` after a prefix, whose letters may be of either case.
pub after : Text → Text → Option Text
after [] s = some s
after (c ∷ prefix) [] = none
after (c ∷ prefix) (d ∷ s) =
    let rest = after prefix s in if equal_fold (c ∷ []) (d ∷ []) then rest else none

abbrev non_empty : Text → Option Text
non_empty t = if text_eq t [] then none else some t

abbrev token_after : Option Text → Option Text
token_after none = none
token_after (some rest) = non_empty (trim_space rest)

abbrev single : List Text → Option Text
single [] = none
single (h ∷ []) = some h
single (h ∷ _ ∷ _) = none

abbrev bearer_of : Option Text → Option Text
bearer_of none = none
bearer_of (some h) = token_after (after (codes "Bearer ") (trim_space h))

-- `bearerToken`; `none` where there is none.
unfoldable pub bearer_token : Request → Option Text
unfolding after
bearer_token r = if r.query_token then none else bearer_of (single r.authorization)

abbrev or_whole : Text → Option Text → Text
or_whole whole none = whole
or_whole whole (some host) = host

unfoldable pub remote_is_loopback : Parsers → Text → Bool
remote_is_loopback p remote = p.loopback_ip (or_whole remote (p.host_of remote))

unfoldable pub host_is_loopback : Parsers → Text → Bool
host_is_loopback p raw =
    let host = trim_space raw in
    if text_eq host []
    then false
    else (let h = or_whole host (p.host_of host) in
        if equal_fold h (codes "localhost") then true else p.loopback_ip h)

-- `isLoopback`: both the peer and the host that the request names are local, so that a request
-- through a local proxy under a public name is not.
unfoldable pub is_loopback : Parsers → Request → Bool
unfolding remote_is_loopback host_is_loopback
is_loopback p r = remote_is_loopback p r.remote && host_is_loopback p r.host

abbrev with_bearer : (Text → Text) → AuthConfig → Text → Bool
with_bearer hash a token =
    if a.enabled && verify_token hash a token then true else if a.enabled then false else true

abbrev without_bearer : AuthConfig → Bool → Bool
without_bearer a loopback =
    if not a.enabled then true else if a.allow_loopback_no_token && loopback then true else false

-- `requireAuth`; `hash` is the digest of tokens.
unfoldable pub require_auth : Parsers → (Text → Text) → AuthConfig → Request → Bool
require_auth p hash a r = if r.query_token then false else elim (bearer_token r) [
  | none ↦ without_bearer a (is_loopback p r)
  | some token ↦ with_bearer hash a token
]

-- How the middleware answers: it hands over to the handler, or one of three refusals.
pub data Passage : Type 0 where
  handled forbidden unsupported_media unauthorized : Passage

unfoldable pub secure_write : Parsers → (Text → Text) → AuthConfig → Request → Passage
secure_write p hash a r =
    if not (origin_allowed p r)
    then forbidden
    else if not (require_json p r)
    then unsupported_media
    else if not (require_auth p hash a r)
    then unauthorized
    else handled

unfoldable pub secure_auth_admin : Parsers → (Text → Text) → AuthConfig → Request → Passage
secure_auth_admin p hash a r =
    if not (origin_allowed p r)
    then forbidden
    else if not (require_json p r)
    then unsupported_media
    else if a.enabled
    then (if not (require_auth p hash a r) then unauthorized else handled)
    else if not (is_loopback p r)
    then unauthorized
    else handled
