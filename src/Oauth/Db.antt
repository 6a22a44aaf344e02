-- ===== src/Oauth/Db.antt =====
-- The objects that the OAuth database keeps. A column of JSON text is the object that it encodes.
use gubbi.Prelude.{ℕ, String, Option, List}
use gubbi.Oauth.Table.{Table}

-- OAuthClientInformationFull, as far as the package reads it.
pub record Client : Type 0 where
  pub client_id : Option String
  pub redirect_uris : List String

-- `expires_at` is a time of the clock, whose unit is the microsecond.
pub record AuthorizationCode : Type 0 where
  pub code : String
  pub scopes : List String
  pub expires_at : ℕ
  pub client_id : String
  pub code_challenge : String
  pub redirect_uri : String
  pub resource : Option String

-- `expires_at` of a token is in seconds.
pub record AccessToken : Type 0 where
  pub token : String
  pub client_id : String
  pub scopes : List String
  pub expires_at : Option ℕ
  pub resource : Option String

pub record RefreshToken : Type 0 where
  pub token : String
  pub client_id : String
  pub scopes : List String
  pub expires_at : Option ℕ

-- A row of token_pairs, which has no key.
pub record TokenPair : Type 0 where
  pub access_token : String
  pub refresh_token : String
  pub created_at : ℕ

-- A row of rate_limit_events.
pub record Event : Type 0 where
  pub event_key : String
  pub occurred_at : ℕ

pub record Db : Type 0 where
  pub clients : List Client
  pub auth_codes : Table AuthorizationCode
  pub access_tokens : Table AccessToken
  pub refresh_tokens : Table RefreshToken
  pub token_pairs : List TokenPair
  pub rate_limit_events : List Event
