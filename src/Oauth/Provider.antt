-- ===== src/Oauth/Provider.antt =====
-- The OAuth provider of gubbi/oauth/provider.py. The tokens that `secrets` draws are arguments, and
-- so are the outcomes of the statements of an atomic block; `now` is the clock in microseconds.
use gubbi.Prelude.{
  ℕ, ◌+◌, String, Bool, true, false, Option, none, some, List, [], ◌∷◌, ◌==◌, string_eq, ltb,
  if◌then◌else◌, compare_digest, join_words,
}
use gubbi.Oauth.Db.{Db, Client, AuthorizationCode, AccessToken, RefreshToken}
use gubbi.Oauth.Storage.{
  seconds, get_auth_code, delete_auth_code, save_issued_token_pair, get_refresh_token,
  delete_refresh_token, rotate_refresh_token, get_access_token, delete_access_token,
  get_paired_refresh_token, delete_token_pair_by_access, get_paired_access_tokens,
  delete_token_pair_by_refresh, delete_access_tokens,
}
use gubbi.Oauth.Cleanup.{is_expired}

abbrev pub access_ttl_secs : ℕ
access_ttl_secs = 3600

abbrev pub refresh_ttl_secs : ℕ
refresh_ttl_secs = 2592000

-- A call returns, or raises what compare_digest or the storage raises.
pub data Call (A : Type 0) : Type 0 where
  returned : A → Call A
  type_error storage_error : Call A

pub record OauthToken : Type 0 where
  pub access_token : String
  pub expires_in : ℕ
  pub refresh_token : String
  pub scope : Option String

-- `client.client_id or ""`.
abbrev pub client_name : Client → String
client_name c = elim c.client_id [ none ↦ "" | some i ↦ i ]

-- `" ".join(scopes) if scopes else None`.
abbrev pub scope_text : List String → Option String
scope_text [] = none
scope_text (s ∷ ss) = some (join_words (s ∷ ss))

-- load_authorization_code with the row that it found.
abbrev with_code :
    ℕ → Client → String → Option AuthorizationCode → Db → Call (Option AuthorizationCode) × Db
with_code now client code none db = (returned none, db)
with_code now client code (some c) db = elim (compare_digest c.client_id (client_name client)) [
  | none ↦ (type_error, db)
  | some same ↦
      if same
      then if ltb c.expires_at now
        then (returned none, delete_auth_code code db)
        else (returned (some c), db)
      else (returned none, delete_auth_code code db)
]

unfoldable pub load_authorization_code :
    ℕ → Client → String → Db → Call (Option AuthorizationCode) × Db
load_authorization_code now client code db = with_code now client code (get_auth_code code db) db

abbrev pub new_access : ℕ → String → String → List String → Option String → AccessToken
new_access now token client scopes resource = record {
  token = token;
  client_id = client;
  scopes = scopes;
  expires_at = some (seconds now + access_ttl_secs);
  resource = resource;
}

abbrev pub new_refresh : ℕ → String → String → List String → RefreshToken
new_refresh now token client scopes = record {
  token = token;
  client_id = client;
  scopes = scopes;
  expires_at = some (seconds now + refresh_ttl_secs);
}

abbrev pub token_response : String → String → List String → OauthToken
token_response access refresh scopes = record {
  access_token = access;
  expires_in = access_ttl_secs;
  refresh_token = refresh;
  scope = scope_text scopes;
}

-- What follows an atomic block: the answer if it returned, its exception if it raised.
abbrev pub answer : {A : Type 0} → A → Bool × Db → Call A × Db
answer a (false, db) = (storage_error, db)
answer a (true, db) = (returned a, db)

unfoldable pub issue_token_pair :
    ℕ
    → String
    → String
    → String
    → List String
    → Option String
    → List Bool
    → Db
    → Call OauthToken × Db
issue_token_pair now access refresh client scopes resource outcomes db =
    answer (token_response access refresh scopes) (
      save_issued_token_pair now access (new_access now access client scopes resource) refresh
        (new_refresh now refresh client scopes) outcomes db)

unfoldable pub exchange_authorization_code :
    ℕ → String → String → Client → AuthorizationCode → List Bool → Db → Call OauthToken × Db
unfolding issue_token_pair
exchange_authorization_code now access refresh client c outcomes db =
    issue_token_pair now access refresh (client_name client) c.scopes c.resource outcomes
      (delete_auth_code c.code db)

abbrev with_refresh :
    ℕ → Client → String → Option RefreshToken → Db → Call (Option RefreshToken) × Db
with_refresh now client token none db = (returned none, db)
with_refresh now client token (some t) db = elim (compare_digest t.client_id (client_name client)) [
  | none ↦ (type_error, db)
  | some same ↦
      if same
      then if is_expired (seconds now) t.expires_at
        then (returned none, delete_refresh_token token db)
        else (returned (some t), db)
      else (returned none, db)
]

unfoldable pub load_refresh_token : ℕ → Client → String → Db → Call (Option RefreshToken) × Db
load_refresh_token now client token db =
    with_refresh now client token (get_refresh_token token db) db

-- `scopes if scopes else refresh_token.scopes`.
abbrev pub effective_scopes : List String → List String → List String
effective_scopes [] old = old
effective_scopes (s ∷ ss) old = s ∷ ss

unfoldable pub exchange_refresh_token :
    ℕ
    → String
    → String
    → Client
    → RefreshToken
    → List String
    → List Bool
    → Db
    → Call OauthToken × Db
exchange_refresh_token now access refresh client old scopes outcomes db =
    let granted = effective_scopes scopes old.scopes in
    answer (token_response access refresh granted) (
      rotate_refresh_token now old.token access
        (new_access now access (client_name client) granted none) refresh
        (new_refresh now refresh (client_name client) granted) outcomes db)

abbrev with_access : ℕ → String → Option AccessToken → Db → Option AccessToken × Db
with_access now token none db = (none, db)
with_access now token (some t) db =
    if is_expired (seconds now) t.expires_at
    then (none, delete_access_token token db)
    else (some t, db)

unfoldable pub load_access_token : ℕ → String → Db → Option AccessToken × Db
load_access_token now token db = with_access now token (get_access_token token db) db

-- `if paired_refresh:`, which an empty text fails.
abbrev drop_refresh : Option String → Db → Db
drop_refresh none db = db
drop_refresh (some r) db = if r == "" then db else delete_refresh_token r db

-- revoke_token of an AccessToken.
unfoldable pub revoke_access : AccessToken → Db → Db
revoke_access t db =
    drop_refresh (get_paired_refresh_token t.token db)
      (delete_token_pair_by_access t.token (delete_access_token t.token db))

-- revoke_token of a RefreshToken.
unfoldable pub revoke_refresh : RefreshToken → Db → Db
revoke_refresh t db =
    delete_access_tokens (get_paired_access_tokens t.token db)
      (delete_token_pair_by_refresh t.token (delete_refresh_token t.token db))
