-- ===== src/Oauth/Samples.antt =====
-- A small OAuth database and requests on it, for the tests.
use gubbi.Prelude.{ℕ, String, none, some, [], ◌∷◌, ◌==◌, nat_eq, string_eq}
use gubbi.Oauth.Db.{Db, Client, AuthorizationCode, AccessToken, RefreshToken}
use gubbi.Oauth.Storage.{pair_row, code_row, access_row, refresh_row}
use gubbi.Oauth.Provider.{exchange_authorization_code, new_access, new_refresh}
use gubbi.Oauth.Login.{LoginConfig, LoginForm, Attempt, event_key}

abbrev pub at_a : String
at_a = "at-a"

abbrev pub at_b : String
at_b = "at-b"

abbrev pub rt_a : String
rt_a = "rt-a"

abbrev pub code_b : String
code_b = "code-b"

abbrev pub phone : Client
phone = record { client_id = some "phone"; redirect_uris = "app://done" ∷ [] }

abbrev pub code_a : AuthorizationCode
code_a = record {
  code = "code-a";
  scopes = "journal" ∷ [];
  expires_at = 900_000_000;
  client_id = "phone";
  code_challenge = "x";
  redirect_uri = "app://done";
  resource = none;
}

abbrev pub access_a : AccessToken
access_a = record {
  token = "at-a";
  client_id = "phone";
  scopes = "journal" ∷ [];
  expires_at = some 400;
  resource = none;
}

abbrev pub refresh_a : RefreshToken
refresh_a = record {
  token = "rt-a";
  client_id = "phone";
  scopes = "journal" ∷ [];
  expires_at = some 9000;
}

abbrev pub store : Db
store = record {
  clients = phone ∷ [];
  auth_codes = code_row 100 "code-a" code_a ∷ [];
  access_tokens = access_row 100 "at-a" access_a ∷ [];
  refresh_tokens = refresh_row 100 "rt-a" refresh_a ∷ [];
  token_pairs = pair_row 100 "at-a" "rt-a" ∷ [];
  rate_limit_events = record { event_key = event_key "10.0.0.1"; occurred_at = 1 } ∷ [];
}

-- The clock, in microseconds: 500 seconds.
abbrev pub clock : ℕ
clock = 500_000_000

abbrev pub access_b : AccessToken
access_b = new_access clock "at-b" "phone" ("journal" ∷ []) none

abbrev pub refresh_b : RefreshToken
refresh_b = new_refresh clock "rt-b" "phone" ("journal" ∷ [])

-- The tokens of an exchange of the code.
abbrev pub exchanged : Db
exchanged = (exchange_authorization_code clock "at-b" "rt-b" phone code_a [] store).1

abbrev pub form_a : LoginForm
form_a = record {
  csrf_token = "t";
  client_id = "phone";
  redirect_uri = "app://done";
  state = "s";
  code_challenge = "y";
  scope = "";
  password = "right";
}

abbrev pub config_a : LoginConfig
config_a = record { password_hash = "right"; auth_code_ttl = 300; checkpw = λ p h. p == h }

abbrev pub wrong_attempt : Attempt
wrong_attempt = record {
  time = clock;
  client_host = "10.0.0.1";
  code = "code-b";
  form = record form_a { password = "wrong" };
  cookie = "t";
}
