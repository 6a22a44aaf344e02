-- ===== src/Oauth/Tests.antt =====
-- Runs of the OAuth model on codes and tokens.
use gubbi.Prelude.{
  ◌+◌, ◌≡◌, ◌⊎◌, ◌≤◌, refl, ap, true, false, not, none, some, [], ◌∷◌, ◌++◌, filter, ◌==◌, nat_eq,
  string_eq, if◌then◌else◌, contains, compare_digest, ltb, arith,
}
use gubbi.Oauth.Table.{lookup, UniqueKeys, keep_if}
use gubbi.Oauth.Db.{AuthorizationCode}
use gubbi.Oauth.Storage.{
  get_access_token, get_refresh_token, get_auth_code, get_paired_access_tokens, pair_row, seconds,
  rotate_refresh_token, save_issued_token_pair,
}
use gubbi.Oauth.Provider.{
  load_authorization_code, exchange_authorization_code, load_access_token, load_refresh_token,
  exchange_refresh_token, returned, token_response, new_access, new_refresh, client_name,
  access_ttl_secs,
}
use gubbi.Oauth.Cleanup.{cleanup_expired}
use gubbi.Oauth.Rotation.{rotate_refresh_token_lem}
use gubbi.Oauth.Codes.{load_authorization_code_lem, load_access_token-exchange}
use gubbi.Oauth.Races.{exchange_authorization_code_twice, exchange_refresh_token_twice}
use gubbi.Oauth.Expiry.{cleanup_expired_lem, live_code, live_access, live_refresh}
use gubbi.Oauth.Samples.{
  at_b, rt_a, phone, code_a, refresh_a, store, clock, access_b, refresh_b, exchanged,
}

rotate_refresh_token_lem_example :
    let (stored, db') =
      rotate_refresh_token clock "rt-a" "at-b" access_b "rt-b" refresh_b
        (true ∷ (true ∷ (false ∷ [])))
        store in
    ((stored ≡ false) × (db' ≡ store))
    ⊎ ((stored ≡ true)
        × (get_access_token "at-a" db' ≡ (
            if at_b == "at-a"
            then some access_b
            else if contains (get_paired_access_tokens "rt-a" store) "at-a"
            then none
            else get_access_token "at-a" store))
        × (get_refresh_token "at-a" db' ≡ (
            if (refresh_b.token) == "at-a"
            then some refresh_b
            else if rt_a == "at-a"
            then none
            else get_refresh_token "at-a" store))
        × (db'.token_pairs
            ≡ filter (λ p. not (p.refresh_token == "rt-a")) store.token_pairs
              ++ (pair_row clock "at-b" "rt-b" ∷ []))
        × (db'.clients ≡ store.clients)
        × (db'.auth_codes ≡ store.auth_codes)
        × (db'.rate_limit_events ≡ store.rate_limit_events))
rotate_refresh_token_lem_example =
    rotate_refresh_token_lem clock "rt-a" "at-b" access_b "rt-b" refresh_b
      (true ∷ (true ∷ (false ∷ []))) store "at-a"

load_authorization_code_lem_example :
    (get_auth_code "code-a" store ≡ some code_a)
    × ((some code_a ≡ none)
        ⊎ ((c : AuthorizationCode) × (some code_a ≡ some c)
            × (get_auth_code "code-a" store ≡ some c)
            × (c.client_id ≡ client_name phone)
            × (clock ≤ c.expires_at)
            × (store ≡ store)))
unfolding load_authorization_code get_auth_code lookup string_eq compare_digest
load_authorization_code_lem_example =
    load_authorization_code_lem clock phone "code-a" store store (some code_a) refl

load_access_token-exchange_example :
    (at_b ≡ at_b)
    × ((load_access_token 700_000_000 "at-b" exchanged).0 ≡ (
        if ltb (seconds clock + access_ttl_secs) (seconds 700_000_000)
        then none
        else some (new_access clock "at-b" "phone" ("journal" ∷ []) none)))
unfolding exchange_authorization_code save_issued_token_pair
load_access_token-exchange_example =
    load_access_token-exchange clock "at-b" "rt-b" phone code_a [] store 700_000_000 exchanged
      (token_response "at-b" "rt-b" ("journal" ∷ [])) refl

exchange_authorization_code_twice_example :
    let first = exchange_authorization_code clock "at-b" "rt-b" phone code_a [] store in
    let second = exchange_authorization_code clock "at-c" "rt-c" phone code_a [] first.1 in
    (first.0 ≡ returned (token_response "at-b" "rt-b" ("journal" ∷ [])))
    × (second.0 ≡ returned (token_response "at-c" "rt-c" ("journal" ∷ [])))
    × (get_access_token "at-b" second.1
        ≡ some (new_access clock "at-b" "phone" ("journal" ∷ []) none))
    × (get_access_token "at-c" second.1
        ≡ some (new_access clock "at-c" "phone" ("journal" ∷ []) none))
unfolding load_authorization_code get_auth_code lookup string_eq compare_digest
exchange_authorization_code_twice_example =
    exchange_authorization_code_twice clock clock phone "code-a" "at-b" "at-c" "rt-b" "rt-c" code_a
      store refl refl (λ e. ground (arith, ap (λ s. s == "at-c") e))

exchange_refresh_token_twice_example :
    let first = exchange_refresh_token clock "at-b" "rt-b" phone refresh_a [] [] store in
    let second = exchange_refresh_token clock "at-c" "rt-c" phone refresh_a [] [] first.1 in
    (first.0 ≡ returned (token_response "at-b" "rt-b" ("journal" ∷ [])))
    × (get_refresh_token "rt-a" first.1 ≡ none)
    × (second.0 ≡ returned (token_response "at-c" "rt-c" ("journal" ∷ [])))
    × (get_refresh_token "rt-b" second.1 ≡ some (new_refresh clock "rt-b" "phone" ("journal" ∷ [])))
    × (get_refresh_token "rt-c" second.1 ≡ some (new_refresh clock "rt-c" "phone" ("journal" ∷ [])))
unfolding load_refresh_token get_refresh_token lookup string_eq compare_digest
exchange_refresh_token_twice_example =
    exchange_refresh_token_twice clock clock phone "rt-a" "at-b" "at-c" "rt-b" "rt-c" refresh_a []
      store refl refl (λ e. ground (arith, ap (λ s. s == "rt-c") e))
      (λ e. ground (arith, ap (λ s. s == "rt-a") e))

cleanup_expired_lem_example :
    let db' = (cleanup_expired clock clock store).1 in
    (lookup "at-a" db'.auth_codes
      ≡ keep_if (live_code (seconds clock) store) (lookup "at-a" store.auth_codes))
    × (lookup "at-a" db'.access_tokens
        ≡ keep_if (live_access (seconds clock) store) (lookup "at-a" store.access_tokens))
    × (lookup "at-a" db'.refresh_tokens
        ≡ keep_if (live_refresh (seconds clock) store) (lookup "at-a" store.refresh_tokens))
    × (db'.clients ≡ store.clients)
unfolding UniqueKeys lookup
cleanup_expired_lem_example =
    cleanup_expired_lem clock clock store "at-a" (refl, tt) (refl, tt) (refl, tt)
