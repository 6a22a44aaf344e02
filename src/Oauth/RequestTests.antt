-- ===== src/Oauth/RequestTests.antt =====
-- Runs of the login form and the self-host endpoints.
use gubbi.Prelude.{
  ◌≡◌, ◌≢◌, ◌≤◌, ◌<◌, refl, true, none, some, [], ◌∷◌, nat_eq, string_eq, contains, compare_digest,
  arith,
}
use gubbi.Oauth.Table.{lookup}
use gubbi.Oauth.Db.{Client}
use gubbi.Oauth.Storage.{get_access_token, get_auth_code, seconds, get_client, save_auth_code}
use gubbi.Oauth.RateLimit.{count_events}
use gubbi.Oauth.Provider.{load_access_token}
use gubbi.Oauth.Login.{
  serve, login_post, event_key, lockout_window_secs, login_max_failures, new_code,
}
use gubbi.Oauth.Lockout.{serve_bounded}
use gubbi.Oauth.Selfhost.{validate, accepted_by_provider, validate-load_access_token}
use gubbi.Oauth.Grants.{login_post_redirect}
use gubbi.Oauth.Samples.{code_b, access_a, store, clock, form_a, config_a, wrong_attempt}

serve_bounded_example :
    count_events clock
      (event_key "10.0.0.1")
      lockout_window_secs
      (serve config_a (wrong_attempt ∷ (wrong_attempt ∷ [])) store)
    ≤ login_max_failures
unfolding count_events string_eq
serve_bounded_example =
    serve_bounded config_a "10.0.0.1" clock (wrong_attempt ∷ (wrong_attempt ∷ [])) clock store
      (omega arith, (omega arith, omega arith)) (omega arith)

login_post_redirect_example :
    (client : Client) × (get_client "phone" store ≡ some client)
    × (contains client.redirect_uris "app://done" ≡ true)
    × (form_a.redirect_uri ≡ form_a.redirect_uri)
    × (code_b ≡ code_b)
    × (form_a.csrf_token ≡ "t")
    × (wrong_attempt.cookie ≢ "")
    × (config_a.checkpw form_a.password config_a.password_hash ≡ true)
    × (count_events clock (event_key "10.0.0.2") lockout_window_secs store < login_max_failures)
    × (get_auth_code "code-b"
          (save_auth_code clock "code-b" (new_code config_a clock "code-b" form_a) store)
        ≡ some (new_code config_a clock "code-b" form_a))
    × (store.rate_limit_events ≡ store.rate_limit_events)
unfolding login_post count_events string_eq compare_digest get_client save_auth_code
login_post_redirect_example =
    login_post_redirect config_a clock "10.0.0.2" "code-b" "app://done" "code-b" "s" form_a "t"
      store (save_auth_code clock "code-b" (new_code config_a clock "code-b" form_a) store) refl

validate-load_access_token_example :
    validate 400_000_000 "at-a" store
    ≡ accepted_by_provider (seconds 400_000_000) (load_access_token 400_000_000 "at-a" store).0
validate-load_access_token_example = validate-load_access_token 400_000_000 "at-a" store

-- In the second of the expiry the validator refuses what the provider accepts.
validate_test :
    (validate 400_000_000 "at-a" store ≡ none)
    × ((load_access_token 400_000_000 "at-a" store).0 ≡ some access_a)
unfolding validate load_access_token get_access_token lookup string_eq
validate_test = (refl, refl)
