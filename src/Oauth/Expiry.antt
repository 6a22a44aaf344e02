-- ===== src/Oauth/Expiry.antt =====
-- What cleanup_expired removes, and what it counts.
use gubbi.Prelude.{
  ℕ, ◌+◌, ◌≡◌, refl, ◌∙◌, String, Bool, false, not, none, some, List, [], ◌∷◌, arith, string_eq,
  ltb, filter, count, ap, ◌&&◌, length, Option-cases, inl, inr,
}
use gubbi.Oauth.Table.{Row, Table, lookup, UniqueKeys, keep_if, lookup-filter, filter-UniqueKeys}
use gubbi.Oauth.Db.{Db, AccessToken, RefreshToken, AuthorizationCode, TokenPair}
use gubbi.Oauth.Storage.{seconds}
use gubbi.Oauth.RateLimit.{retention_secs}
use gubbi.Oauth.Cleanup.{
  is_stale, expired_row, in_expired, cascaded, clean_codes, clean_access, clean_cascade,
  cleanup_expired,
}

count-filter :
    {A : Type 0} (test : A → Bool) (xs : List A)
    → count test xs + length (filter (λ x. not (test x)) xs) ≡ length xs
count-filter test [] = refl
count-filter test (x ∷ xs) = ground (arith, count-filter test xs)

in_expired-lookup :
    {A : Type 0} (now : ℕ) (t : Table A) (k : String)
    → UniqueKeys t
    → in_expired now t k ≡ elim (lookup k t) [ none ↦ false | some r ↦ expired_row now r ]
unfolding in_expired lookup UniqueKeys
in_expired-lookup now [] k u = refl
in_expired-lookup now (r ∷ t) k (fresh, u) = ground (arith, in_expired-lookup now t k u)

lookup-key : {A : Type 0} (k : String) (t : Table A) (r : Row A) → lookup k t ≡ some r → r.key ≡ k
unfolding lookup
lookup-key k [] r h = cc
lookup-key k (s ∷ t) r h = ground (arith, lookup-key k t r)

-- Dropping the pairs of expired access tokens changes the cascade of no live one.
cascaded-filter :
    (now : ℕ) (acc : Table AccessToken) (ps : List TokenPair) (t : Table RefreshToken) (k : String)
    → in_expired now acc k ≡ false
    → cascaded now (filter (λ p. not (in_expired now acc p.access_token)) ps) t k
      ≡ cascaded now ps t k
unfolding cascaded
cascaded-filter now acc [] t k live = refl
cascaded-filter now acc (p ∷ ps) t k live = ground (arith, cascaded-filter now acc ps t k live)

-- The rows that survive, told from the database before: a code that has a time and is not past it, a
-- refresh token not past its time, an access token neither past its time nor paired with a refresh
-- token that is.
module _ (now : ℕ) (db : Db) where
  abbrev pub live_code : Row AuthorizationCode → Bool
  live_code r = not (is_stale now r.expires_at)

  abbrev pub live_refresh : Row RefreshToken → Bool
  live_refresh r = not (expired_row now r)

  abbrev pub live_access : Row AccessToken → Bool
  live_access r =
      not (expired_row now r) && not (cascaded now db.token_pairs db.refresh_tokens r.key)

  -- The two conditions of the clean-up, one after the other, on the row of a key.
  keep_live :
      (k : String)
      → UniqueKeys db.access_tokens
      → keep_if
          (λ r. not (cascaded now (clean_access now db).1.token_pairs db.refresh_tokens r.key))
          (keep_if (λ r. not (expired_row now r)) (lookup k db.access_tokens))
        ≡ keep_if live_access (lookup k db.access_tokens)
  unfolding clean_access
  keep_live k u = elim (Option-cases (lookup k db.access_tokens)) [
    | inl missing ↦ ground arith
    | inr (r, found) ↦
        let key : r.key ≡ k = lookup-key k db.access_tokens r found in
        ground (
          arith,
          in_expired-lookup now db.access_tokens k u,
          cascaded-filter now db.access_tokens db.token_pairs db.refresh_tokens k,
        )
  ]

  lookup-clean_access :
      (k : String)
      → UniqueKeys db.access_tokens
      → lookup k (clean_cascade now (clean_access now db).1).1.access_tokens
        ≡ keep_if live_access (lookup k db.access_tokens)
  unfolding clean_cascade clean_access
  lookup-clean_access k u =
      lookup-filter _ k (filter (λ r. not (expired_row now r)) db.access_tokens)
        (filter-UniqueKeys (λ r. not (expired_row now r)) db.access_tokens u)
      ∙ ap
          (keep_if
            (λ r. not (cascaded now (clean_access now db).1.token_pairs db.refresh_tokens r.key)))
          (lookup-filter (λ r. not (expired_row now r)) k db.access_tokens u)
      ∙ keep_live k u

-- After cleanup_expired, over tables whose keys are unique: a code is stored if and only if it was
-- and is not past its time, a refresh token if it was and is not past its time, and an access token
-- if it was, is not past its time, and is paired with no refresh token that is. What is stored is
-- what was stored before. The clients are untouched.
pub cleanup_expired_lem :
    (now later : ℕ) (db : Db) (k : String)
    → UniqueKeys db.auth_codes
    → UniqueKeys db.access_tokens
    → UniqueKeys db.refresh_tokens
    → let db' = (cleanup_expired now later db).1 in
      (lookup k db'.auth_codes ≡ keep_if (live_code (seconds now) db) (lookup k db.auth_codes))
      × (lookup k db'.access_tokens
          ≡ keep_if (live_access (seconds now) db) (lookup k db.access_tokens))
      × (lookup k db'.refresh_tokens
          ≡ keep_if (live_refresh (seconds now) db) (lookup k db.refresh_tokens))
      × (db'.clients ≡ db.clients)
unfolding cleanup_expired
cleanup_expired_lem now later db k codes access refresh =
    let cleaned = (clean_codes (seconds now) db).1 in
    (
      lookup-filter (live_code (seconds now) db) k db.auth_codes codes,
      lookup-clean_access (seconds now) cleaned k access,
      lookup-filter (live_refresh (seconds now) db) k db.refresh_tokens refresh,
      refl,
    )

-- The number that cleanup_expired returns is the number of rows that have gone from the tables of
-- codes, tokens and rate-limit events; the pairs are not counted.
pub cleanup_expired_count :
    (now later : ℕ) (db : Db)
    → let (deleted, db') = cleanup_expired now later db in
      deleted
        + length db'.auth_codes
        + length db'.access_tokens
        + length db'.refresh_tokens
        + length db'.rate_limit_events
      ≡ length db.auth_codes
        + length db.access_tokens
        + length db.refresh_tokens
        + length db.rate_limit_events
unfolding cleanup_expired
cleanup_expired_count now later db =
    let t = seconds now in
    let after = (clean_access t (clean_codes t db).1).1 in
    omega (
      arith,
      count-filter (λ r. is_stale t r.expires_at) db.auth_codes,
      count-filter (expired_row t) db.access_tokens,
      count-filter (λ r. cascaded t after.token_pairs after.refresh_tokens r.key)
          after.access_tokens,
      count-filter (expired_row t) db.refresh_tokens,
      count-filter (λ e. ltb (e.occurred_at + retention_secs) (seconds later)) db.rate_limit_events,
    )
