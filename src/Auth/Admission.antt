-- ===== src/Auth/Admission.antt =====
-- Who reaches the application: the first strategy that answers decides, in both HTTP layers alike.
use gubbi.Prelude.{
  ℕ, ◌≡◌, ◌≢◌, refl, String, true, false, Option, some, List, [], ◌∷◌, map, arith, string_eq,
  nat_eq, list_eq, codes, ◌⊎◌, inl, inr,
}
use gubbi.Auth.Scope.{Grants, has_scope}
use gubbi.Auth.Strategies.{
  Text, Request, AuthResult, Rejection, Attempt, authenticated, deferred, rejected, type_error,
  lower_char, starts_with, api_key, extract_bearer_token, token, all_ascii, drop,
}
use gubbi.Auth.Middleware.{
  Outcome, app, escaped, Strategy, bearer_auth, Resolved, user, http_error, resolve_user_id,
  on_rejected,
}

-- The first strategy that does not defer authenticates the request as `result`.
abbrev pub AnsweredBy : AuthResult → List Strategy → Request → Type 0
AnsweredBy result [] request = ⊥
AnsweredBy result (s ∷ strategies) request =
    (s request ≡ authenticated result)
    ⊎ ((s request ≡ deferred) × AnsweredBy result strategies request)

Attempt-cases :
    (a : Attempt)
    → ((r : AuthResult) × (a ≡ authenticated r))
      ⊎ ((a ≡ deferred) ⊎ (((r : Rejection) × (a ≡ rejected r)) ⊎ (a ≡ type_error)))
Attempt-cases (authenticated r) = inl (r, refl)
Attempt-cases deferred = inr (inl refl)
Attempt-cases (rejected r) = inr (inr (inl (r, refl)))
Attempt-cases type_error = inr (inr (inr refl))

-- An HTTP request with a required scope reaches the application only with an identity, which the
-- first strategy that did not defer gave, and whose scopes satisfy the requirement.
pub bearer_auth_admits :
    (g : Grants) (required : String) (strategies : List Strategy) (request : Request)
    (who : Option AuthResult)
    → bearer_auth g (some required) strategies true request ≡ app who
    → (result : AuthResult) × (who ≡ some result)
      × (has_scope g result.scopes required ≡ true)
      × AnsweredBy result strategies request
unfolding bearer_auth
bearer_auth_admits g required [] request who h = cc
bearer_auth_admits g required (s ∷ strategies) request who h = elim (Attempt-cases (s request)) [
  | inl (r, e) ↦ (r, ground arith, ground arith, inl e)
  | inr (inl e) ↦
      let (r, same, enough, answered) =
        bearer_auth_admits g required strategies request who (ground arith) in
      (r, same, enough, inr (e, answered))
  | inr (inr (inl (r, e))) ↦ ground arith
  | inr (inr (inr e)) ↦ ground arith
]

-- The middleware's outcome that corresponds to an answer of the REST dependency.
pub outcome_of : Resolved → Outcome
outcome_of (user result) = app (some result)
outcome_of (http_error s) = on_rejected s
outcome_of Resolved.escaped = Outcome.escaped

-- The bearer middleware and the REST dependency decide every HTTP request alike: the same identity,
-- or the same kind of refusal.
pub bearer_auth-eq-resolve_user_id :
    (g : Grants) (required : Option String) (strategies : List Strategy) (request : Request)
    → bearer_auth g required strategies true request
      ≡ outcome_of (resolve_user_id g required strategies request)
unfolding bearer_auth resolve_user_id outcome_of nat_eq
bearer_auth-eq-resolve_user_id g required [] request = refl
bearer_auth-eq-resolve_user_id g required (s ∷ strategies) request =
    ground (arith, bearer_auth-eq-resolve_user_id g required strategies request)

-- The API-key strategy authenticates only the bearer of the configured key, which is not empty, and
-- always as the provisioned operator with the configured scopes.
pub api_key_lem :
    (key : Text) (scopes : List String) (operator : Option ℕ) (request : Request)
    (result : AuthResult)
    → api_key key scopes operator request ≡ authenticated result
    → (key ≢ [])
      × (starts_with (map lower_char request.authorization) (codes "bearer ") ≡ true)
      × (drop 7 request.authorization ≡ key)
      × (operator ≡ some result.user_id)
      × (result.scopes ≡ scopes)
unfolding api_key
api_key_lem key scopes operator request result h = ground arith

-- Where the API-key strategy comes first and its key is not empty, a bearer token within the
-- length limit that is not ASCII makes the comparison raise a TypeError, which no layer turns into
-- a 401: the exception escapes the middleware.
pub bearer_auth_not_ascii :
    (g : Grants) (required : Option String) (key : Text) (scopes : List String)
    (operator : Option ℕ) (rest : List Strategy) (request : Request)
    → key ≢ []
    → extract_bearer_token request ≡ token (drop 7 request.authorization)
    → all_ascii (drop 7 request.authorization) ≡ false
    → bearer_auth g required (api_key key scopes operator ∷ rest) true request ≡ escaped
unfolding bearer_auth api_key
bearer_auth_not_ascii g required key scopes operator rest request real shown odd = ground arith
