-- ===== src/Auth/Middleware.antt =====
-- The HTTP layers around the application: bearer authentication (gubbi/middleware/auth.py), its REST
-- twin (gubbi/api/v1/auth.py), the origin check (gubbi/middleware/origin.py) and the path
-- normalizer (gubbi/middleware/path.py).
use gubbi.Prelude.{
  ℕ, String, Bool, true, ◌&&◌, ◌||◌, Option, none, some, List, [], ◌∷◌, ◌++◌, map, any, contains,
  ◌==◌, string_eq, nat_eq, list_eq, if◌then◌else◌, codes,
}
use gubbi.Auth.Scope.{Grants, has_scope}
use gubbi.Auth.Strategies.{
  Text, Request, AuthResult, Attempt, authenticated, deferred, rejected, type_error, status,
  lower_char, starts_with,
}

-- What a request leads to: the application is called, with the identity that the context then holds;
-- or a response is sent; or an exception escapes.
pub data Outcome : Type 0 where
  app : Option AuthResult → Outcome
  unauthorized forbidden service_unavailable : Outcome
  escaped : Outcome

abbrev pub Strategy : Type 0
Strategy = Request → Attempt

-- The response to AuthRejected, by its status.
abbrev pub on_rejected : ℕ → Outcome
on_rejected s =
    if s == 503 then service_unavailable else if s == 403 then forbidden else unauthorized

-- After a strategy has answered.
abbrev pub admit : Grants → Option String → AuthResult → Outcome
admit g none result = app (some result)
admit g (some required) result =
    if has_scope g result.scopes required then app (some result) else forbidden

-- The loop over the strategies, and what follows it.
unfoldable pub try_strategies : Grants → Option String → List Strategy → Request → Outcome
try_strategies g required [] request = unauthorized
try_strategies g required (s ∷ strategies) request =
    let rest = try_strategies g required strategies request in
    elim (s request) [
      | authenticated result ↦ admit g required result
      | deferred ↦ rest
      | rejected r ↦ on_rejected (status r)
      | type_error ↦ escaped
    ]

-- BearerAuthMiddleware.__call__; `is_http` is `scope["type"] == "http"`.
unfoldable pub bearer_auth : Grants → Option String → List Strategy → Bool → Request → Outcome
unfolding try_strategies
bearer_auth g required strategies is_http request =
    if is_http then try_strategies g required strategies request else app none

-- resolve_user_id: an answer, or the status of the HTTPException.
pub data Resolved : Type 0 where
  user : AuthResult → Resolved
  http_error : ℕ → Resolved
  escaped : Resolved

abbrev pub require : Grants → Option String → AuthResult → Resolved
require g none result = user result
require g (some scope) result =
    if has_scope g result.scopes scope then user result else http_error 403

unfoldable pub resolve_user_id : Grants → Option String → List Strategy → Request → Resolved
resolve_user_id g scope [] request = http_error 401
resolve_user_id g scope (s ∷ strategies) request =
    let rest = resolve_user_id g scope strategies request in
    elim (s request) [
      | authenticated result ↦ require g scope result
      | deferred ↦ rest
      | rejected r ↦ http_error (status r)
      | type_error ↦ Resolved.escaped
    ]

-- OriginValidationMiddleware. `origin` is the first Origin header, if any, decoded from Latin-1.

abbrev pub loopback_origins : List Text
loopback_origins = codes "http://localhost" ∷ codes "http://127.0.0.1" ∷ codes "http://[::1]" ∷ []

abbrev pub is_loopback : Text → Bool
is_loopback origin =
    any (λ base. origin == base || starts_with origin (base ++ codes ":")) loopback_origins

-- Whether the request reaches the application; otherwise 403 is sent. The allowlist is lowered when
-- the middleware is built.
unfoldable pub origin_allowed : List Text → Bool → Option Text → Bool
unfolding starts_with
origin_allowed allowed is_http none = true
origin_allowed allowed is_http (some origin) =
    if is_http
    then (let lowered = map lower_char origin in
        is_loopback lowered || contains (map (map lower_char) allowed) lowered)
    else true

-- MCPPathNormalizer: the path that the application sees.
unfoldable pub normalize_path : Bool → Text → Text
normalize_path is_http path = if is_http && path == codes "/mcp" then codes "/mcp/" else path
