-- ===== src/Oauth/Selfhost.antt =====
-- The self-host endpoints of gubbi/oauth/selfhost.py: the token validator of the bearer strategy, and
-- the rate limit around client registration. The storage raises nothing here; `now` is the clock.
use gubbi.Prelude.{
  ℕ, ◌≤◌, ◌≡◌, refl, ◌<>◌, String, Bool, true, false, Option, none, some, List, [], ◌∷◌, ◌==◌,
  string_eq, nat_eq, ltb, leb, if◌then◌else◌, Option-cases, inl, inr, arith,
}
use gubbi.Oauth.Db.{Db, AccessToken}
use gubbi.Oauth.Storage.{seconds, get_access_token}
use gubbi.Oauth.RateLimit.{record_event, count_events}
use gubbi.Oauth.Provider.{load_access_token}

abbrev pub granted_scopes : List String
granted_scopes = "journal:read" ∷ "journal:write" ∷ []

-- `at.expires_at is None or at.expires_at > now`.
abbrev pub still_valid : ℕ → Option ℕ → Bool
still_valid now none = true
still_valid now (some t) = ltb now t

abbrev pub validated : ℕ → Option AccessToken → Option (List String)
validated now none = none
validated now (some t) = if still_valid now t.expires_at then some granted_scopes else none

-- The closure that _make_token_validator returns.
unfoldable pub validate : ℕ → String → Db → Option (List String)
validate now token db = validated (seconds now) (get_access_token token db)

abbrev pub register_max_attempts : ℕ
register_max_attempts = 10

abbrev pub register_window_secs : ℕ
register_window_secs = 3600

abbrev pub register_key : String → String
register_key ip = "register:" <> ip

-- rate_limited_app: whether the request reaches the registration, and the database.
unfoldable pub register : ℕ → String → Db → Bool × Db
register now ip db =
    if leb register_max_attempts (count_events now (register_key ip) register_window_secs db)
    then (false, db)
    else (true, record_event now (register_key ip) db)

-- The requests of one address after another, each with its time.
unfoldable pub register_all : List (ℕ × String) → Db → Db
unfolding register
register_all [] db = db
register_all ((now, ip) ∷ rest) db = register_all rest (register now ip db).1

-- Whether the clock shows the second of the expiry.
abbrev pub at_expiry : ℕ → Option ℕ → Bool
at_expiry now none = false
at_expiry now (some t) = t == now

abbrev pub accepted_by_provider : ℕ → Option AccessToken → Option (List String)
accepted_by_provider now none = none
accepted_by_provider now (some t) = if at_expiry now t.expires_at then none else some granted_scopes

validated-expired :
    (now : ℕ) (token : String) (o : Option AccessToken) (db : Db)
    → get_access_token token db ≡ o
    → validate now token db ≡ accepted_by_provider (seconds now) (load_access_token now token db).0
unfolding validate load_access_token nat_eq
validated-expired now token none db h = rw h refl
validated-expired now token (some t) db h = elim (Option-cases t.expires_at) [
  | inl forever ↦ ground (arith, h, forever)
  | inr (e, ends) ↦ ground (arith, h, ends)
]

-- The validator accepts a token exactly if the provider does and the clock does not show the second
-- of its expiry, in which the provider still accepts it; and it grants reading and writing, whatever
-- scopes the token has.
pub validate-load_access_token :
    (now : ℕ) (token : String) (db : Db)
    → validate now token db ≡ accepted_by_provider (seconds now) (load_access_token now token db).0
validate-load_access_token now token db =
    validated-expired now token (get_access_token token db) db refl

-- The requests come in the order of the clock, from `start` to `stop`.
abbrev pub InOrder : ℕ → List (ℕ × String) → ℕ → Type 0
InOrder start [] stop = start ≤ stop
InOrder start ((now, ip) ∷ rest) stop = (start ≤ now) × InOrder now rest stop
