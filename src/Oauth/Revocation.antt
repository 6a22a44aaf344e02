-- ===== src/Oauth/Revocation.antt =====
-- revoke_token, for both kinds of token.
use gubbi.Prelude.{
  ◌≡◌, ◌≢◌, refl, String, not, none, some, List, [], ◌∷◌, arith, ◌==◌, string_eq, if◌then◌else◌,
  filter,
}
use gubbi.Oauth.Table.{lookup-erase}
use gubbi.Oauth.Db.{Db, AccessToken, TokenPair}
use gubbi.Oauth.Storage.{
  get_access_token, get_refresh_token, delete_access_token, delete_refresh_token,
  delete_token_pair_by_access, get_paired_refresh_token, paired_refresh,
}
use gubbi.Oauth.Provider.{revoke_access}

paired_refresh-unpaired :
    (k : String) (ps : List TokenPair)
    → paired_refresh k (filter (λ p. not (p.access_token == k)) ps) ≡ none
unfolding paired_refresh
paired_refresh-unpaired k [] = refl
paired_refresh-unpaired k (p ∷ ps) = ground (arith, paired_refresh-unpaired k ps)

-- Revoking an access token that is paired with a refresh token, whose text is not empty, removes
-- both, and no other token; and no pair names the access token afterwards.
pub revoke_access_lem :
    (t : AccessToken) (db : Db) (j r : String)
    → get_paired_refresh_token t.token db ≡ some r
    → r ≢ ""
    → (get_access_token j (revoke_access t db)
        ≡ (if t.token == j then none else get_access_token j db))
      × (get_refresh_token j (revoke_access t db)
          ≡ (if r == j then none else get_refresh_token j db))
      × (get_paired_refresh_token t.token (revoke_access t db) ≡ none)
unfolding revoke_access get_access_token get_refresh_token delete_refresh_token delete_access_token
    delete_token_pair_by_access get_paired_refresh_token
revoke_access_lem t db j r paired real = (
  ground (arith, lookup-erase t.token j db.access_tokens),
  ground (arith, lookup-erase r j db.refresh_tokens),
  ground (arith, paired_refresh-unpaired t.token db.token_pairs),
)
