-- ===== src/Oauth/Storage.antt =====
-- OAuthStorage (gubbi/oauth/storage.py) over RateLimitStorage (gubbi/oauth/_rate_limit.py): each
-- method as a function of the database, with the time that it reads as an argument.
use gubbi.Prelude.{
  ℕ, ◌/◌, String, Bool, true, false, not, Option, none, some, List, [], ◌∷◌, ◌++◌, map, ◌==◌,
  string_eq, if◌then◌else◌, filter,
}
use gubbi.Oauth.Table.{Row, lookup, erase, upsert}
use gubbi.Oauth.Db.{Db, Client, AuthorizationCode, AccessToken, RefreshToken, TokenPair}

-- `int(time.time())` of a clock that counts microseconds.
abbrev pub seconds : ℕ → ℕ
seconds now = now / 1_000_000

abbrev pub body_of : {A : Type 0} → Option (Row A) → Option A
body_of none = none
body_of (some r) = some r.body

-- A NULL client_id conflicts with no other row, and no lookup finds it.
abbrev pub is_client : String → Client → Bool
is_client k c = elim c.client_id [ none ↦ false | some i ↦ i == k ]

unfoldable pub find_client : String → List Client → Option Client
find_client k [] = none
find_client k (c ∷ cs) = let rest = find_client k cs in if is_client k c then some c else rest

unfoldable pub save_client : Client → Db → Db
save_client c db = record db {
  clients = elim c.client_id [
    | none ↦ c ∷ db.clients
    | some k ↦ c ∷ filter (λ d. not (is_client k d)) db.clients
  ];
}

unfoldable pub get_client : String → Db → Option Client
unfolding find_client
get_client k db = find_client k db.clients

abbrev pub code_row : ℕ → String → AuthorizationCode → Row AuthorizationCode
code_row now code c = record {
  key = code;
  body = c;
  created_at = seconds now;
  expires_at = some (seconds c.expires_at);
}

abbrev pub access_row : ℕ → String → AccessToken → Row AccessToken
access_row now token t = record {
  key = token;
  body = t;
  created_at = seconds now;
  expires_at = t.expires_at;
}

abbrev pub refresh_row : ℕ → String → RefreshToken → Row RefreshToken
refresh_row now token t = record {
  key = token;
  body = t;
  created_at = seconds now;
  expires_at = t.expires_at;
}

unfoldable pub save_auth_code : ℕ → String → AuthorizationCode → Db → Db
save_auth_code now code c db = record db { auth_codes = upsert (code_row now code c) db.auth_codes }

unfoldable pub get_auth_code : String → Db → Option AuthorizationCode
get_auth_code code db = body_of (lookup code db.auth_codes)

unfoldable pub delete_auth_code : String → Db → Db
delete_auth_code code db = record db { auth_codes = erase code db.auth_codes }

unfoldable pub save_access_token : ℕ → String → AccessToken → Db → Db
save_access_token now token t db = record db {
  access_tokens = upsert (access_row now token t) db.access_tokens;
}

unfoldable pub get_access_token : String → Db → Option AccessToken
get_access_token token db = body_of (lookup token db.access_tokens)

unfoldable pub delete_access_token : String → Db → Db
delete_access_token token db = record db { access_tokens = erase token db.access_tokens }

unfoldable pub save_refresh_token : ℕ → String → RefreshToken → Db → Db
save_refresh_token now token t db = record db {
  refresh_tokens = upsert (refresh_row now token t) db.refresh_tokens;
}

unfoldable pub get_refresh_token : String → Db → Option RefreshToken
get_refresh_token token db = body_of (lookup token db.refresh_tokens)

unfoldable pub delete_refresh_token : String → Db → Db
delete_refresh_token token db = record db { refresh_tokens = erase token db.refresh_tokens }

abbrev pub pair_row : ℕ → String → String → TokenPair
pair_row now access refresh = record {
  access_token = access;
  refresh_token = refresh;
  created_at = seconds now;
}

-- The pairs stand in the order of their insertion.
unfoldable pub save_token_pair : ℕ → String → String → Db → Db
save_token_pair now access refresh db = record db {
  token_pairs = db.token_pairs ++ (pair_row now access refresh ∷ []);
}

unfoldable pub paired_refresh : String → List TokenPair → Option String
paired_refresh access [] = none
paired_refresh access (p ∷ ps) =
    let rest = paired_refresh access ps in
    if p.access_token == access then some p.refresh_token else rest

-- fetchone(): the oldest pair of the access token.
unfoldable pub get_paired_refresh_token : String → Db → Option String
unfolding paired_refresh
get_paired_refresh_token access db = paired_refresh access db.token_pairs

unfoldable pub get_paired_access_tokens : String → Db → List String
get_paired_access_tokens refresh db =
    map (λ p. p.access_token) (filter (λ p. p.refresh_token == refresh) db.token_pairs)

unfoldable pub delete_token_pair_by_access : String → Db → Db
delete_token_pair_by_access access db = record db {
  token_pairs = filter (λ p. not (p.access_token == access)) db.token_pairs;
}

unfoldable pub delete_token_pair_by_refresh : String → Db → Db
delete_token_pair_by_refresh refresh db = record db {
  token_pairs = filter (λ p. not (p.refresh_token == refresh)) db.token_pairs;
}

-- `for at in tokens: DELETE FROM access_tokens WHERE token = at`.
unfoldable pub delete_access_tokens : List String → Db → Db
unfolding delete_access_token
delete_access_tokens [] db = db
delete_access_tokens (t ∷ ts) db = delete_access_tokens ts (delete_access_token t db)

-- The statements of an _atomic block, BEGIN and COMMIT among them, against the outcomes that SQLite
-- gives them: `false` is a statement that raises, and past the end of the list all succeed.
unfoldable pub run_statements : List (Db → Db) → List Bool → Db → Option Db
run_statements [] outcomes db = some db
run_statements (s ∷ ss) [] db = run_statements ss [] (s db)
run_statements (s ∷ ss) (false ∷ outcomes) db = none
run_statements (s ∷ ss) (true ∷ outcomes) db = run_statements ss outcomes (s db)

abbrev pub no_effect : Db → Db
no_effect db = db

-- What a block answers: whether it raised, and the database, rolled back if it did.
abbrev pub settle : Db → Option Db → Bool × Db
settle db none = (false, db)
settle db (some db') = (true, db')

unfoldable pub atomic : List (Db → Db) → List Bool → Db → Bool × Db
unfolding run_statements
atomic body outcomes db =
    settle db (run_statements (no_effect ∷ (body ++ (no_effect ∷ []))) outcomes db)

unfoldable pub save_issued_token_pair :
    ℕ → String → AccessToken → String → RefreshToken → List Bool → Db → Bool × Db
unfolding atomic save_access_token save_refresh_token save_token_pair
save_issued_token_pair now access_str access refresh_str refresh = atomic (
    save_access_token now access_str access
    ∷ save_refresh_token now refresh_str refresh
    ∷ save_token_pair now access_str refresh_str
    ∷ [])

-- The seven steps of rotate_refresh_token. The first reads the paired access tokens, and the loop
-- over them makes one DELETE for each.
unfoldable pub rotation :
    ℕ → String → String → AccessToken → String → RefreshToken → List String → List (Db → Db)
unfolding delete_access_token delete_token_pair_by_refresh delete_refresh_token save_access_token
    save_refresh_token save_token_pair
rotation now old access_str access refresh_str refresh paired =
    no_effect
    ∷ (map delete_access_token paired
        ++ (delete_token_pair_by_refresh old
            ∷ delete_refresh_token old
            ∷ save_access_token now access_str access
            ∷ save_refresh_token now refresh_str refresh
            ∷ save_token_pair now access_str refresh_str
            ∷ []))

unfoldable pub rotate_refresh_token :
    ℕ → String → String → AccessToken → String → RefreshToken → List Bool → Db → Bool × Db
unfolding atomic rotation get_paired_access_tokens
rotate_refresh_token now old access_str access refresh_str refresh outcomes db =
    atomic
      (rotation now old access_str access refresh_str refresh (get_paired_access_tokens old db))
      outcomes db
