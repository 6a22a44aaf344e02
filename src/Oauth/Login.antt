-- ===== src/Oauth/Login.antt =====
-- The login form of gubbi/oauth/forms.py. The client's address, bcrypt's verdict and the drawn code
-- are arguments; a missing form field or cookie is the empty text.
use gubbi.Prelude.{
  ℕ, ◌+◌, ◌*◌, ◌<>◌, String, Bool, true, false, ◌||◌, Option, none, some, List, [], ◌∷◌, ◌==◌,
  string_eq, leb, if◌then◌else◌, compare_digest, split_words, contains,
}
use gubbi.Oauth.Db.{Db, Client, AuthorizationCode}
use gubbi.Oauth.Storage.{get_client, save_auth_code}
use gubbi.Oauth.RateLimit.{record_event, count_events}

abbrev pub login_max_failures : ℕ
login_max_failures = 10

abbrev pub lockout_window_secs : ℕ
lockout_window_secs = 300

pub record LoginForm : Type 0 where
  pub csrf_token : String
  pub client_id : String
  pub redirect_uri : String
  pub state : String
  pub code_challenge : String
  pub scope : String
  pub password : String

pub data Response : Type 0 where
  login_page :
      (client_id redirect_uri state code_challenge scope : String) → (error : Bool) → Response
  too_many_attempts csrf_failed invalid_client invalid_redirect_uri server_error : Response
  redirect : (uri code state : String) → Response

-- render_login_page with the fields of a form; the password is not among them.
abbrev pub show_form : LoginForm → Bool → Response
show_form f error = login_page f.client_id f.redirect_uri f.state f.code_challenge f.scope error

-- A GET of /login, whose query parameters are a form without password.
unfoldable pub login_get : LoginForm → Db → Response × Db
login_get params db = (show_form params false, db)

-- What the handler is built with, and bcrypt's check of a password.
pub record LoginConfig : Type 0 where
  pub password_hash : String
  pub auth_code_ttl : ℕ
  pub checkpw : String → String → Bool

abbrev pub event_key : String → String
event_key client_host = "login_failure:" <> client_host

abbrev pub new_code : LoginConfig → ℕ → String → LoginForm → AuthorizationCode
new_code config now code form = record {
  code = code;
  scopes = if form.scope == "" then [] else split_words form.scope;
  expires_at = now + config.auth_code_ttl * 1_000_000;
  client_id = form.client_id;
  code_challenge = form.code_challenge;
  redirect_uri = form.redirect_uri;
  resource = none;
}

module _ (config : LoginConfig) (now : ℕ) (client_host code : String) (form : LoginForm) where
  -- From the password on.
  unfoldable pub check_password : Db → Response × Db
  check_password db =
      if config.checkpw form.password config.password_hash
      then (
        redirect form.redirect_uri code form.state,
        save_auth_code now code (new_code config now code form) db,
      )
      else (show_form form true, record_event now (event_key client_host) db)

  abbrev with_client : Option Client → Db → Response × Db
  with_client none db = (invalid_client, db)
  with_client (some c) db =
      if contains c.redirect_uris form.redirect_uri
      then check_password db
      else (invalid_redirect_uri, db)

  -- The CSRF check, and what follows it. compare_digest raises on text that is not ASCII.
  unfoldable pub check_csrf : String → Db → Response × Db
  unfolding check_password
  check_csrf cookie db =
      if form.csrf_token == "" || cookie == ""
      then (csrf_failed, db)
      else elim (compare_digest form.csrf_token cookie) [
        | none ↦ (server_error, db)
        | some same ↦
            if same then with_client (get_client form.client_id db) db else (csrf_failed, db)
      ]

  -- A POST to /login.
  unfoldable pub login_post : String → Db → Response × Db
  unfolding check_csrf
  login_post cookie db =
      if leb login_max_failures (count_events now (event_key client_host) lockout_window_secs db)
      then (too_many_attempts, db)
      else check_csrf cookie db

-- A POST as it reaches the handler: its time, the client's address, the code that would be drawn,
-- the form and the CSRF cookie.
pub record Attempt : Type 0 where
  pub time : ℕ
  pub client_host : String
  pub code : String
  pub form : LoginForm
  pub cookie : String

-- Requests served one after the other.
unfoldable pub serve : LoginConfig → List Attempt → Db → Db
serve config [] db = db
serve config (a ∷ rest) db =
    serve config rest (login_post config a.time a.client_host a.code a.form a.cookie db).1
