-- ===== src/Oauth/Rotation.antt =====
-- Rotation of refresh tokens: all or nothing, and what a complete rotation leaves.
use gubbi.Prelude.{
  ℕ, ◌≡◌, refl, ◌∙◌, String, Bool, true, false, not, none, some, List, [], ◌∷◌, ◌++◌, arith, map,
  ◌==◌, string_eq, if◌then◌else◌, filter, contains, inl, inr, ◌⊎◌, ap,
}
use gubbi.Oauth.Atomic.{run_all, run_all-append, atomic-cases, atomic_succeeds}
use gubbi.Oauth.Table.{Table, lookup, erase, upsert, lookup-erase, lookup-upsert}
use gubbi.Oauth.Db.{Db, AccessToken, RefreshToken}
use gubbi.Oauth.Storage.{
  rotation, rotate_refresh_token, delete_access_token, access_row, refresh_row,
  get_paired_access_tokens, get_access_token, get_refresh_token, pair_row,
}

erase_all : List String → Table AccessToken → Table AccessToken
erase_all [] t = t
erase_all (k ∷ ks) t = erase_all ks (erase k t)

lookup-erase_all :
    (ks : List String) (j : String) (t : Table AccessToken)
    → lookup j (erase_all ks t) ≡ (if contains ks j then none else lookup j t)
unfolding erase_all
lookup-erase_all [] j t = refl
lookup-erase_all (k ∷ ks) j t =
    ground (arith, lookup-erase_all ks j (erase k t), lookup-erase k j t)

run_all-deletes :
    (ks : List String) (db : Db)
    → run_all (map delete_access_token ks) db
      ≡ record db { access_tokens = erase_all ks db.access_tokens }
unfolding run_all erase_all delete_access_token
run_all-deletes [] db = refl
run_all-deletes (k ∷ ks) db = run_all-deletes ks (delete_access_token k db)

-- The database after a complete rotation.
pub rotated : ℕ → String → String → AccessToken → String → RefreshToken → Db → Db
rotated now old access_str access refresh_str refresh db = record db {
  access_tokens =
      upsert (access_row now access_str access)
        (erase_all (get_paired_access_tokens old db) db.access_tokens);
  refresh_tokens = upsert (refresh_row now refresh_str refresh) (erase old db.refresh_tokens);
  token_pairs =
      filter (λ p. not (p.refresh_token == old)) db.token_pairs
      ++ (pair_row now access_str refresh_str ∷ []);
}

run_all-rotation :
    (now : ℕ) (old access_str : String) (access : AccessToken) (refresh_str : String)
    (refresh : RefreshToken) (db : Db)
    → run_all
        (rotation now old access_str access refresh_str refresh (get_paired_access_tokens old db))
        db
      ≡ rotated now old access_str access refresh_str refresh db
unfolding run_all rotation rotated
run_all-rotation now old access_str access refresh_str refresh db =
    run_all-append (map delete_access_token (get_paired_access_tokens old db)) _ db
    ∙ rw (run_all-deletes (get_paired_access_tokens old db) db)

module _ (now : ℕ) (old access_str : String) (access : AccessToken) (refresh_str : String)
    (refresh : RefreshToken) where
  rotate_refresh_token-cases :
      (outcomes : List Bool) (db : Db)
      → (rotate_refresh_token now old access_str access refresh_str refresh outcomes db
          ≡ (false, db))
        ⊎ (rotate_refresh_token now old access_str access refresh_str refresh outcomes db
            ≡ (true, rotated now old access_str access refresh_str refresh db))
  unfolding rotate_refresh_token
  rotate_refresh_token-cases outcomes db = elim (atomic-cases _ outcomes db) [
    | inl raised ↦ inl raised
    | inr done ↦ inr (
        done
        ∙ ap (λ d. (true, d)) (run_all-rotation now old access_str access refresh_str refresh db))
  ]

  -- Where SQLite refuses no statement the rotation is complete.
  pub rotate_refresh_token_succeeds :
      (db : Db)
      → rotate_refresh_token now old access_str access refresh_str refresh [] db
        ≡ (true, rotated now old access_str access refresh_str refresh db)
  unfolding rotate_refresh_token
  rotate_refresh_token_succeeds db =
      atomic_succeeds _ db
      ∙ ap (λ d. (true, d)) (run_all-rotation now old access_str access refresh_str refresh db)

  pub get_access_token-rotated :
      (db : Db) (t : String)
      → get_access_token t (rotated now old access_str access refresh_str refresh db) ≡ (
          if access_str == t
          then some access
          else if contains (get_paired_access_tokens old db) t
          then none
          else get_access_token t db)
  unfolding get_access_token rotated
  get_access_token-rotated db t = ground (
    arith,
    lookup-upsert (access_row now access_str access) t
        (erase_all (get_paired_access_tokens old db) db.access_tokens),
    lookup-erase_all (get_paired_access_tokens old db) t db.access_tokens,
  )

  pub get_refresh_token-rotated :
      (db : Db) (t : String)
      → get_refresh_token t (rotated now old access_str access refresh_str refresh db) ≡ (
          if refresh_str == t
          then some refresh
          else if old == t
          then none
          else get_refresh_token t db)
  unfolding get_refresh_token rotated
  get_refresh_token-rotated db t = ground (
    arith,
    lookup-upsert (refresh_row now refresh_str refresh) t (erase old db.refresh_tokens),
    lookup-erase old t db.refresh_tokens,
  )

  -- Rotation is atomic and complete. Whichever of its statements SQLite refuses, either the call
  -- raises and the database is untouched; or it returns, and then: the new access and refresh tokens
  -- are stored, the old refresh token and every access token paired with it are gone, every other
  -- token is as before, the pairs of the old token are replaced by the new pair, and the clients, the
  -- codes and the rate-limit events are untouched.
  pub rotate_refresh_token_lem :
      (outcomes : List Bool) (db : Db) (t : String)
      → let (returned, db') =
          rotate_refresh_token now old access_str access refresh_str refresh outcomes db in
        ((returned ≡ false) × (db' ≡ db))
        ⊎ ((returned ≡ true)
            × (get_access_token t db' ≡ (
                if access_str == t
                then some access
                else if contains (get_paired_access_tokens old db) t
                then none
                else get_access_token t db))
            × (get_refresh_token t db' ≡ (
                if refresh_str == t
                then some refresh
                else if old == t
                then none
                else get_refresh_token t db))
            × (db'.token_pairs
                ≡ filter (λ p. not (p.refresh_token == old)) db.token_pairs
                  ++ (pair_row now access_str refresh_str ∷ []))
            × (db'.clients ≡ db.clients)
            × (db'.auth_codes ≡ db.auth_codes)
            × (db'.rate_limit_events ≡ db.rate_limit_events))
  unfolding rotated
  rotate_refresh_token_lem outcomes db t = elim (rotate_refresh_token-cases outcomes db) [
    | inl raised ↦ inl (ap (λ r. r.0) raised, ap (λ r. r.1) raised)
    | inr done ↦ rw done (
        inr (
          refl,
          get_access_token-rotated db t,
          get_refresh_token-rotated db t,
          refl,
          refl,
          refl,
          refl,
        ))
  ]
