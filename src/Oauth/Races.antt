-- ===== src/Oauth/Races.antt =====
-- Two requests interleaved between the loading of a credential and its exchange. Each storage call
-- is atomic; nothing makes the two calls of one request so.
use gubbi.Prelude.{
  ℕ, ◌≡◌, ◌≢◌, refl, String, some, none, List, [], arith, ◌==◌, string_eq, if◌then◌else◌, ap,
}
use gubbi.Oauth.Table.{lookup-upsert}
use gubbi.Oauth.Db.{Db, Client, AuthorizationCode, RefreshToken}
use gubbi.Oauth.Storage.{
  get_access_token, delete_auth_code, save_issued_token_pair, access_row, get_refresh_token,
}
use gubbi.Oauth.Rotation.{rotated, rotate_refresh_token_succeeds, get_refresh_token-rotated}
use gubbi.Oauth.Provider.{
  returned, client_name, load_authorization_code, new_access, new_refresh, answer, token_response,
  exchange_authorization_code, load_refresh_token, exchange_refresh_token, effective_scopes,
}

-- The exchange when SQLite refuses nothing.
exchange_returns :
    (now : ℕ) (access refresh : String) (client : Client) (c : AuthorizationCode) (db : Db)
    → (exchange_authorization_code now access refresh client c [] db).0
      ≡ returned (token_response access refresh c.scopes)
unfolding exchange_authorization_code save_issued_token_pair
exchange_returns now access refresh client c db = refl

get_access_token-exchange :
    (now : ℕ) (access refresh : String) (client : Client) (c : AuthorizationCode) (db : Db)
    (t : String)
    → get_access_token t (exchange_authorization_code now access refresh client c [] db).1 ≡ (
        if access == t
        then some (new_access now access (client_name client) c.scopes c.resource)
        else get_access_token t db)
unfolding exchange_authorization_code save_issued_token_pair get_access_token delete_auth_code
get_access_token-exchange now access refresh client c db t = ground (
  arith,
  lookup-upsert
      (access_row now access (new_access now access (client_name client) c.scopes c.resource)) t
      db.access_tokens,
)

-- An authorization code is not single-use under concurrency: if two requests load the code before
-- the first has exchanged it, and different access tokens are drawn and SQLite refuses nothing,
-- then both exchanges return tokens, and both access tokens are stored.
pub exchange_authorization_code_twice :
    (now later : ℕ) (client : Client) (code a a' r r' : String) (c : AuthorizationCode) (db : Db)
    → load_authorization_code now client code db ≡ (returned (some c), db)
    → load_authorization_code later client code db ≡ (returned (some c), db)
    → a' ≢ a
    → let first = exchange_authorization_code now a r client c [] db in
      let second = exchange_authorization_code later a' r' client c [] first.1 in
      (first.0 ≡ returned (token_response a r c.scopes))
      × (second.0 ≡ returned (token_response a' r' c.scopes))
      × (get_access_token a second.1
          ≡ some (new_access now a (client_name client) c.scopes c.resource))
      × (get_access_token a' second.1
          ≡ some (new_access later a' (client_name client) c.scopes c.resource))
exchange_authorization_code_twice now later client code a a' r r' c db loaded again differ =
    let db' = (exchange_authorization_code now a r client c [] db).1 in
    (
      exchange_returns now a r client c db,
      exchange_returns later a' r' client c db',
      ground (
        arith,
        get_access_token-exchange later a' r' client c db' a,
        get_access_token-exchange now a r client c db a,
      ),
      ground (arith, get_access_token-exchange later a' r' client c db' a'),
    )

module _ (now : ℕ) (client : Client) (old : RefreshToken) (scopes : List String) where
  abbrev granted : List String
  granted = effective_scopes scopes old.scopes

  -- A refresh when SQLite refuses nothing.
  exchange_refresh_token_returns :
      (access refresh : String) (db : Db)
      → exchange_refresh_token now access refresh client old scopes [] db ≡ (
        returned (token_response access refresh granted),
        rotated now old.token access
            (new_access now access (client_name client) granted none)
            refresh
            (new_refresh now refresh (client_name client) granted)
            db,
      )
  unfolding exchange_refresh_token
  exchange_refresh_token_returns access refresh db =
      ap (answer (token_response access refresh granted)) (
        rotate_refresh_token_succeeds now old.token access
          (new_access now access (client_name client) granted none) refresh
          (new_refresh now refresh (client_name client) granted) db)

  get_refresh_token-exchange :
      (access refresh t : String) (db : Db)
      → get_refresh_token t (exchange_refresh_token now access refresh client old scopes [] db).1
        ≡ (if refresh == t
            then some (new_refresh now refresh (client_name client) granted)
            else if old.token == t
            then none
            else get_refresh_token t db)
  get_refresh_token-exchange access refresh t db =
      rw (exchange_refresh_token_returns access refresh db) (
        get_refresh_token-rotated now old.token access
          (new_access now access (client_name client) granted none) refresh
          (new_refresh now refresh (client_name client) granted) db t)

-- A refresh token can be used twice under concurrency: if two requests load it before the first
-- has rotated it, and new, different tokens are drawn and SQLite refuses nothing, then both
-- rotations return new tokens, and both new refresh tokens are stored, though the first rotation
-- has removed the old one.
pub exchange_refresh_token_twice :
    (now later : ℕ) (client : Client) (token a a' r r' : String) (old : RefreshToken)
    (scopes : List String) (db : Db)
    → load_refresh_token now client token db ≡ (returned (some old), db)
    → load_refresh_token later client token db ≡ (returned (some old), db)
    → r' ≢ r
    → old.token ≢ r
    → let first = exchange_refresh_token now a r client old scopes [] db in
      let second = exchange_refresh_token later a' r' client old scopes [] first.1 in
      (first.0 ≡ returned (token_response a r (effective_scopes scopes old.scopes)))
      × (get_refresh_token old.token first.1 ≡ none)
      × (second.0 ≡ returned (token_response a' r' (effective_scopes scopes old.scopes)))
      × (get_refresh_token r second.1
          ≡ some (new_refresh now r (client_name client) (effective_scopes scopes old.scopes)))
      × (get_refresh_token r' second.1
          ≡ some (new_refresh later r' (client_name client) (effective_scopes scopes old.scopes)))
exchange_refresh_token_twice now later client token a a' r r' old scopes db loaded again differ
      new =
    let db' = (exchange_refresh_token now a r client old scopes [] db).1 in
    (
      ap (λ x. x.0) (exchange_refresh_token_returns now client old scopes a r db),
      ground (arith, get_refresh_token-exchange now client old scopes a r old.token db),
      ap (λ x. x.0) (exchange_refresh_token_returns later client old scopes a' r' db'),
      ground (
        arith,
        get_refresh_token-exchange later client old scopes a' r' r db',
        get_refresh_token-exchange now client old scopes a r r db,
      ),
      ground (arith, get_refresh_token-exchange later client old scopes a' r' r' db'),
    )
