-- ===== src/Auth/Tests.antt =====
-- Runs of the authentication model on concrete requests.
use gubbi.Prelude.{
  ◌≡◌, refl, true, false, none, some, [], ◌∷◌, ◌++◌, codes, nat_eq, string_eq, list_eq, arith,
}
use gubbi.Auth.Scope.{scope_grants, check_scope, permitted, has_scope}
use gubbi.Auth.Strategies.{
  Text, Request, AuthResult, api_key, drop, default_scopes, extract_bearer_token,
}
use gubbi.Auth.Middleware.{escaped, bearer_auth, resolve_user_id, Strategy}
use gubbi.Auth.Admission.{
  AnsweredBy, bearer_auth_admits, bearer_auth-eq-resolve_user_id, outcome_of, bearer_auth_not_ascii,
}
use gubbi.Auth.Scope.{check_scope-eq-permitted}

check_scope-eq-permitted_example :
    check_scope scope_grants ("journal" ∷ []) "journal:read"
    ≡ permitted scope_grants ("journal" ∷ []) "journal:read"
check_scope-eq-permitted_example =
    check_scope-eq-permitted "journal:read" scope_grants ("journal" ∷ [])

-- Write access does not give read access.
check_scope_test : check_scope scope_grants ("journal:write" ∷ []) "journal:read" ≡ false
unfolding check_scope string_eq
check_scope_test = refl

abbrev request_with : Text → Request
request_with header = record {
  authorization = header;
  user_id = [];
  contract_version = [];
  scopes = [];
  timestamp = [];
  signature = [];
  method = codes "GET";
  path = codes "/mcp";
}

abbrev key_strategy : Strategy
key_strategy = api_key (codes "key") default_scopes (some 7)

abbrev operator : AuthResult
operator = record { user_id = 7; scopes = default_scopes }

bearer_auth_admits_example :
    (result : AuthResult) × (some operator ≡ some result)
    × (has_scope scope_grants result.scopes "journal" ≡ true)
    × AnsweredBy result (key_strategy ∷ []) (request_with (codes "Bearer key"))
unfolding bearer_auth api_key nat_eq list_eq string_eq has_scope
bearer_auth_admits_example =
    bearer_auth_admits scope_grants "journal" (key_strategy ∷ [])
      (request_with (codes "Bearer key")) (some operator) refl

bearer_auth-eq-resolve_user_id_example :
    bearer_auth scope_grants
      (some "journal")
      (key_strategy ∷ [])
      true
      (request_with (codes "Bearer no"))
    ≡ outcome_of (
        resolve_user_id scope_grants
          (some "journal")
          (key_strategy ∷ [])
          (request_with (codes "Bearer no")))
bearer_auth-eq-resolve_user_id_example =
    bearer_auth-eq-resolve_user_id scope_grants (some "journal") (key_strategy ∷ [])
      (request_with (codes "Bearer no"))

bearer_auth_not_ascii_example :
    bearer_auth scope_grants none
      (key_strategy ∷ [])
      true
      (request_with (codes "Bearer k" ++ (233 ∷ [])))
    ≡ escaped
unfolding extract_bearer_token drop nat_eq list_eq
bearer_auth_not_ascii_example =
    bearer_auth_not_ascii scope_grants none (codes "key") default_scopes (some 7) []
      (request_with (codes "Bearer k" ++ (233 ∷ []))) (λ e. ground (arith, e)) refl refl
