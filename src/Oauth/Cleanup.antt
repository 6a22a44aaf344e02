-- ===== src/Oauth/Cleanup.antt =====
-- cleanup_expired of OAuthStorage (gubbi/oauth/storage.py), step by step.
use gubbi.Prelude.{
  ℕ, ◌+◌, String, Bool, true, false, ◌&&◌, not, Option, none, some, List, ◌==◌, string_eq, ltb,
  if◌then◌else◌, filter, count, any,
}
use gubbi.Oauth.Table.{Row, Table}
use gubbi.Oauth.Db.{Db, AccessToken, RefreshToken, TokenPair}
use gubbi.Oauth.Storage.{seconds}
use gubbi.Oauth.RateLimit.{prune, retention_secs}

-- `expires_at IS NOT NULL AND expires_at < now`.
abbrev pub is_expired : ℕ → Option ℕ → Bool
is_expired now none = false
is_expired now (some t) = ltb t now

-- `expires_at IS NULL OR expires_at < now`.
abbrev pub is_stale : ℕ → Option ℕ → Bool
is_stale now none = true
is_stale now (some t) = ltb t now

abbrev pub expired_row : {A : Type 0} → ℕ → Row A → Bool
expired_row now r = is_expired now r.expires_at

-- `key IN (SELECT token FROM table WHERE expired)`.
unfoldable pub in_expired : {A : Type 0} → ℕ → Table A → String → Bool
in_expired now t k = any (λ r. expired_row now r && r.key == k) t

-- `token IN (SELECT access_token FROM token_pairs WHERE refresh_token IN (...))`.
unfoldable pub cascaded : ℕ → List TokenPair → Table RefreshToken → String → Bool
unfolding in_expired
cascaded now ps t k = any (λ p. in_expired now t p.refresh_token && p.access_token == k) ps

-- The steps of cleanup_expired, in their order; `now` is in seconds.

unfoldable pub clean_codes : ℕ → Db → ℕ × Db
clean_codes now db = (
  count (λ r. is_stale now r.expires_at) db.auth_codes,
  record db { auth_codes = filter (λ r. not (is_stale now r.expires_at)) db.auth_codes },
)

unfoldable pub clean_access : ℕ → Db → ℕ × Db
unfolding in_expired
clean_access now db = (
  count (expired_row now) db.access_tokens,
  record db {
    token_pairs = filter (λ p. not (in_expired now db.access_tokens p.access_token)) db.token_pairs;
    access_tokens = filter (λ r. not (expired_row now r)) db.access_tokens;
  },
)

unfoldable pub clean_cascade : ℕ → Db → ℕ × Db
unfolding cascaded
clean_cascade now db =
    let doomed : Row AccessToken → Bool =
      λ r. cascaded now db.token_pairs db.refresh_tokens r.key in
    (
      count doomed db.access_tokens,
      record db { access_tokens = filter (λ r. not (doomed r)) db.access_tokens },
    )

unfoldable pub clean_refresh : ℕ → Db → ℕ × Db
unfolding in_expired
clean_refresh now db = (
  count (expired_row now) db.refresh_tokens,
  record db {
    token_pairs =
        filter (λ p. not (in_expired now db.refresh_tokens p.refresh_token)) db.token_pairs;
    refresh_tokens = filter (λ r. not (expired_row now r)) db.refresh_tokens;
  },
)

infixl 20 ◌then◌
-- `deleted += n` between two steps.
abbrev pub ◌then◌ : ℕ × Db → (Db → ℕ × Db) → ℕ × Db
r then step = ((r.0 + (step r.1).0), (step r.1).1)

-- `later` is the clock when the events are pruned.
unfoldable pub cleanup_expired : ℕ → ℕ → Db → ℕ × Db
unfolding clean_codes clean_access clean_cascade clean_refresh prune
cleanup_expired now later db =
    clean_codes (seconds now) db
    then clean_access (seconds now)
    then clean_cascade (seconds now)
    then clean_refresh (seconds now)
    then prune later retention_secs
