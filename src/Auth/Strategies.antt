-- ===== src/Auth/Strategies.antt =====
-- The authentication strategies of gubbi/auth/strategies.py. A header is the list of its characters,
-- which Starlette decodes from Latin-1; the libraries that the strategies call are parameters.
use gubbi.Prelude.{
  ℕ, suc, zero, ◌+◌, String, Bool, true, false, ◌&&◌, ◌||◌, not, Option, none, some, List, [], ◌∷◌,
  map, ◌==◌, string_eq, list_eq, nat_eq, ltb, leb, if◌then◌else◌, length, codes,
}

abbrev pub Text : Type 0
Text = List ℕ

-- The request, as far as the strategies read it. A missing header is empty.
pub record Request : Type 0 where
  pub authorization : Text
  pub user_id : Text
  pub contract_version : Text
  pub scopes : Text
  pub timestamp : Text
  pub signature : Text
  pub method : Text
  pub path : Text

pub record AuthResult : Type 0 where
  pub user_id : ℕ
  pub scopes : List String

-- Why a credential is rejected, each with the status of AuthRejected.
pub data Rejection : Type 0 where
  missing_authorization invalid_token missing_user_id invalid_user_id : Rejection
  unsupported_contract no_gateway_secret bad_signature : Rejection
  no_operator auth_unavailable : Rejection

abbrev pub status : Rejection → ℕ
status no_gateway_secret = 503
status no_operator = 503
status auth_unavailable = 503
status missing_authorization = 401
status invalid_token = 401
status missing_user_id = 401
status invalid_user_id = 401
status unsupported_contract = 401
status bad_signature = 401

-- What authenticate() does: a result, None, AuthRejected, or the TypeError of compare_digest.
pub data Attempt : Type 0 where
  authenticated : AuthResult → Attempt
  deferred : Attempt
  rejected : Rejection → Attempt
  type_error : Attempt

-- str.lower() on a Latin-1 character.
abbrev pub lower_char : ℕ → ℕ
lower_char c =
    if leb 65 c && leb c 90 || leb 192 c && leb c 222 && not (c == 215) then c + 32 else c

unfoldable pub starts_with : Text → Text → Bool
starts_with s [] = true
starts_with [] (p ∷ ps) = false
starts_with (c ∷ s) (p ∷ ps) = c == p && starts_with s ps

unfoldable pub drop : ℕ → Text → Text
drop zero s = s
drop (suc n) [] = []
drop (suc n) (c ∷ s) = drop n s

abbrev pub max_bearer_token_len : ℕ
max_bearer_token_len = 256

-- `none` is AuthRejected.
pub data Extracted : Type 0 where
  token : Text → Extracted
  refused : Rejection → Extracted

unfoldable pub extract_bearer_token : Request → Extracted
unfolding starts_with drop
extract_bearer_token request =
    let header = request.authorization in
    if header == []
    then refused missing_authorization
    else if not (starts_with (map lower_char header) (codes "bearer "))
    then refused missing_authorization
    else if ltb max_bearer_token_len (length (drop 7 header))
    then refused invalid_token
    else token (drop 7 header)

-- A strategy that reads the bearer token first.
abbrev pub with_token : Extracted → (Text → Attempt) → Attempt
with_token (token t) k = k t
with_token (refused r) k = rejected r

abbrev pub all_ascii : Text → Bool
all_ascii [] = true
all_ascii (c ∷ s) = ltb c 128 && all_ascii s

-- secrets.compare_digest: `none` is its TypeError on text that is not ASCII.
unfoldable pub compare_digest : Text → Text → Option Bool
compare_digest a b = if all_ascii a && all_ascii b then some (a == b) else none

-- UUID(text), str.split(), and gubbi_common's verify_signature, which raises SignatureError.
pub record Gateway : Type 0 where
  pub secret : Option Text
  pub require_signature : Bool
  pub supported_version : Text
  pub parse_uuid : Text → Option ℕ
  pub split : Text → List String
  pub verify : (secret signature : Text) → (user : ℕ) → (scopes timestamp method path : Text) → Bool

abbrev pub default_scopes : List String
default_scopes = "journal:read" ∷ "journal:write" ∷ []

abbrev pub or_default : List String → List String
or_default [] = default_scopes
or_default (s ∷ ss) = s ∷ ss

abbrev pub check_envelope : Gateway → Request → ℕ → Option Text → Attempt
check_envelope g request user none = rejected no_gateway_secret
check_envelope g request user (some secret) =
    if g.verify secret request.signature user request.scopes request.timestamp request.method
      request.path
    then authenticated (record { user_id = user; scopes = or_default (g.split request.scopes) })
    else rejected bad_signature

abbrev pub with_user : Gateway → Request → Option ℕ → Attempt
with_user g request none = rejected invalid_user_id
with_user g request (some user) =
    if not (request.signature == []) || g.require_signature
    then if not (request.contract_version == g.supported_version)
      then rejected unsupported_contract
      else check_envelope g request user g.secret
    else authenticated (record { user_id = user; scopes = or_default (g.split request.scopes) })

-- TrustGatewayStrategy.authenticate.
unfoldable pub trust_gateway : Gateway → Request → Attempt
trust_gateway g request =
    if request.user_id == []
    then rejected missing_user_id
    else with_user g request (g.parse_uuid request.user_id)

abbrev pub as_operator : Rejection → Option ℕ → List String → Attempt
as_operator r none scopes = rejected r
as_operator r (some user) scopes = authenticated (record { user_id = user; scopes = scopes })

-- ApiKeyStrategy.authenticate.
unfoldable pub api_key : Text → List String → Option ℕ → Request → Attempt
unfolding extract_bearer_token compare_digest
api_key key scopes operator request = with_token (extract_bearer_token request) λ t.
    if key == [] then deferred else elim (compare_digest t key) [
      | none ↦ type_error
      | some same ↦ if same then as_operator no_operator operator scopes else deferred
    ]

-- What introspection answers: claims with a subject, which may be no UUID, or an exception.
pub data Introspection : Type 0 where
  claims : (sub : Option ℕ) → (scopes : List String) → Introspection
  unreachable invalid : Introspection

abbrev pub on_claims : Introspection → Attempt
on_claims (claims none scopes) = rejected invalid_token
on_claims (claims (some user) scopes) = authenticated (record { user_id = user; scopes = scopes })
on_claims unreachable = rejected auth_unavailable
on_claims invalid = rejected invalid_token

-- HydraStrategy.authenticate, with the introspector if one is wired.
unfoldable pub hydra : Option (Text → Introspection) → Request → Attempt
unfolding extract_bearer_token starts_with
hydra none request = deferred
hydra (some introspect) request =
    with_token (extract_bearer_token request)
      λ t. if starts_with t (codes "ory_at_") then on_claims (introspect t) else deferred

-- SelfHostStrategy.authenticate, with the validator if one is wired.
unfoldable pub selfhost : Option (Text → Option (List String)) → Option ℕ → Request → Attempt
unfolding extract_bearer_token
selfhost none operator request = deferred
selfhost (some validate) operator request = with_token (extract_bearer_token request) λ t.
    elim (validate t) [ none ↦ deferred | some granted ↦ as_operator no_operator operator granted ]
