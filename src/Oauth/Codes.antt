-- ===== src/Oauth/Codes.antt =====
-- Authorization codes and the tokens issued for them: binding, expiry, single use, revocation.
use gubbi.Prelude.{
  ℕ, ◌+◌, ◌≤◌, ◌≡◌, refl, ◌∙◌, ap, String, Bool, true, Option, none, some, List, [], ◌∷◌, arith,
  string_eq, ltb, if◌then◌else◌, inl, inr, ◌⊎◌, Bool-cases, Option-cases, compare_digest, ==_self,
}
use gubbi.Oauth.Table.{lookup-erase, lookup-upsert}
use gubbi.Oauth.Db.{Db, Client, AuthorizationCode}
use gubbi.Oauth.Storage.{
  seconds, get_auth_code, delete_auth_code, save_issued_token_pair, get_access_token,
  save_access_token, save_refresh_token, save_token_pair, access_row,
}
use gubbi.Oauth.Provider.{
  returned, storage_error, OauthToken, client_name, load_authorization_code, new_access,
  new_refresh, token_response, answer, issue_token_pair, exchange_authorization_code,
  access_ttl_secs, load_access_token,
}
use gubbi.Oauth.Atomic.{atomic-cases, run_all}

compare_digest_sound : (a b : String) → compare_digest a b ≡ some true → a ≡ b
unfolding compare_digest
compare_digest_sound a b h = ground arith

get_auth_code-delete :
    (code : String) (db : Db) → get_auth_code code (delete_auth_code code db) ≡ none
unfolding get_auth_code delete_auth_code
get_auth_code-delete code db = ground (arith, lookup-erase code code db.auth_codes)

-- A code that load_authorization_code hands out is the stored one, was issued to the client that
-- asks, has not expired, and the database is as before. Any other answer than a TypeError leaves
-- stored exactly what it returned: a code shown by the wrong client, or too late, is burnt.
pub load_authorization_code_lem :
    (now : ℕ) (client : Client) (code : String) (db db' : Db) (r : Option AuthorizationCode)
    → load_authorization_code now client code db ≡ (returned r, db')
    → (get_auth_code code db' ≡ r)
      × ((r ≡ none)
          ⊎ ((c : AuthorizationCode) × (r ≡ some c)
              × (get_auth_code code db ≡ some c)
              × (c.client_id ≡ client_name client)
              × (now ≤ c.expires_at)
              × (db' ≡ db)))
unfolding load_authorization_code
load_authorization_code_lem now client code db db' r h =
    elim (Option-cases (get_auth_code code db)) [
      | inl missing ↦ (ground arith, inl (ground arith))
      | inr (c, found) ↦ elim (Option-cases (compare_digest c.client_id (client_name client))) [
        | inl refused ↦ ground arith
        | inr (same, verdict) ↦ elim (Bool-cases same) [
          | inl e ↦ elim (Bool-cases (ltb c.expires_at now)) [
            | inl late ↦ (ground (arith, get_auth_code-delete code db), inl (ground arith))
            | inr fresh ↦ (
              ground arith,
              inr (
                c,
                ground arith,
                found,
                compare_digest_sound c.client_id (client_name client) (verdict ∙ ap some e),
                ground arith,
                ground arith,
              ),
            )
          ]
          | inr e ↦ (ground (arith, get_auth_code-delete code db), inl (ground arith))
        ]
      ]
    ]

module _ (now : ℕ) (access refresh client : String) (scopes : List String)
    (resource : Option String) where
  -- The database with the pair stored.
  abbrev issued : Db → Db
  issued = run_all (
      save_access_token now access (new_access now access client scopes resource)
      ∷ save_refresh_token now refresh (new_refresh now refresh client scopes)
      ∷ save_token_pair now access refresh
      ∷ [])

  issue_token_pair-cases :
      (outcomes : List Bool) (db : Db)
      → (issue_token_pair now access refresh client scopes resource outcomes db
          ≡ (storage_error, db))
        ⊎ (issue_token_pair now access refresh client scopes resource outcomes db
            ≡ (returned (token_response access refresh scopes), issued db))
  unfolding issue_token_pair save_issued_token_pair
  issue_token_pair-cases outcomes db = elim (atomic-cases _ outcomes db) [
    | inl raised ↦ inl (ap (answer (token_response access refresh scopes)) raised)
    | inr done ↦ inr (ap (answer (token_response access refresh scopes)) done)
  ]

  get_access_token-issued :
      (db : Db)
      → get_access_token access (issued db) ≡ some (new_access now access client scopes resource)
  unfolding run_all get_access_token save_access_token save_refresh_token save_token_pair
  get_access_token-issued db = ground (
    arith,
    ==_self access,
    lookup-upsert (access_row now access (new_access now access client scopes resource)) access
        db.access_tokens,
  )

  get_auth_code-issued :
      (code : String) (db : Db) → get_auth_code code (issued db) ≡ get_auth_code code db
  unfolding run_all get_auth_code save_access_token save_refresh_token save_token_pair
  get_auth_code-issued code db = refl

module _ (now : ℕ) (access refresh : String) (client : Client) (c : AuthorizationCode)
    (outcomes : List Bool) (db : Db) where
  -- Exchanging a code removes it, whether or not the tokens could be stored: no client can load it
  -- again afterwards.
  pub load_authorization_code-exchange :
      (later : ℕ) (other : Client)
      → (load_authorization_code later other c.code
          (exchange_authorization_code now access refresh client c outcomes db).1).0
        ≡ returned none
  unfolding exchange_authorization_code load_authorization_code
  load_authorization_code-exchange later other =
      elim (issue_token_pair-cases now access refresh (client_name client) c.scopes c.resource
        outcomes (delete_auth_code c.code db)) [
          | inl raised ↦ rw (raised, exchange_authorization_code, get_auth_code-delete c.code db)
          | inr done ↦ rw (
            done,
            exchange_authorization_code,
            get_auth_code-issued now access refresh (client_name client) c.scopes c.resource c.code
                (delete_auth_code c.code db),
            get_auth_code-delete c.code db,
          )
        ]

  -- After an exchange that returned, the access token that it issued is accepted for an hour of
  -- whole seconds and not a second longer, and until then it carries the code's scopes and the
  -- client's name.
  pub load_access_token-exchange :
      (later : ℕ) (db' : Db) (token : OauthToken)
      → exchange_authorization_code now access refresh client c outcomes db ≡ (returned token, db')
      → (token.access_token ≡ access)
        × ((load_access_token later access db').0 ≡ (
            if ltb (seconds now + access_ttl_secs) (seconds later)
            then none
            else some (new_access now access (client_name client) c.scopes c.resource)))
  unfolding exchange_authorization_code load_access_token
  load_access_token-exchange later db' token h =
      elim (issue_token_pair-cases now access refresh (client_name client) c.scopes c.resource
        outcomes (delete_auth_code c.code db)) [
          | inl raised ↦ ground arith
          | inr done ↦ ground (
            arith,
            get_access_token-issued now access refresh (client_name client) c.scopes c.resource
                (delete_auth_code c.code db),
          )
        ]
