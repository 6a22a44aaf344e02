-- ===== src/Oauth/Grants.antt =====
-- When the login form hands out an authorization code.
use gubbi.Prelude.{
  ℕ, ◌≡◌, ◌≢◌, ◌<◌, String, true, some, arith, string_eq, contains, compare_digest, Option-cases,
  inl, inr,
}
use gubbi.Oauth.Table.{lookup-upsert}
use gubbi.Oauth.Db.{Db, Client}
use gubbi.Oauth.Storage.{get_client, save_auth_code, get_auth_code, code_row}
use gubbi.Oauth.RateLimit.{count_events}
use gubbi.Oauth.Login.{
  LoginConfig, LoginForm, redirect, login_post, event_key, new_code, login_max_failures,
  lockout_window_secs,
}

-- A POST that redirects with a code comes from an address with fewer than ten recent failures, shows
-- the CSRF cookie's token, names a registered client and one of its redirect URIs, and has the
-- password that bcrypt accepts. The code is then stored, bound to that client and URI, with the
-- configured lifetime, and no failure is recorded.
pub login_post_redirect :
    (config : LoginConfig) (now : ℕ) (client_host code uri sent state : String) (form : LoginForm)
    (cookie : String) (db db' : Db)
    → login_post config now client_host code form cookie db ≡ (redirect uri sent state, db')
    → (client : Client) × (get_client form.client_id db ≡ some client)
      × (contains client.redirect_uris uri ≡ true)
      × (uri ≡ form.redirect_uri)
      × (sent ≡ code)
      × (form.csrf_token ≡ cookie)
      × (cookie ≢ "")
      × (config.checkpw form.password config.password_hash ≡ true)
      × (count_events now (event_key client_host) lockout_window_secs db < login_max_failures)
      × (get_auth_code code db' ≡ some (new_code config now code form))
      × (db'.rate_limit_events ≡ db.rate_limit_events)
unfolding login_post compare_digest save_auth_code get_auth_code
login_post_redirect config now client_host code uri sent state form cookie db db' h =
    elim (Option-cases (get_client form.client_id db)) [
      | inl missing ↦ ground arith
      | inr (client, found) ↦ (
        client,
        found,
        ground arith,
        ground arith,
        ground arith,
        ground arith,
        ground arith,
        ground arith,
        ground arith,
        ground (
          arith,
          lookup-upsert (code_row now code (new_code config now code form)) code db.auth_codes,
        ),
        ground arith,
      )
    ]
