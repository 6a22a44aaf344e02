-- ===== src/Oauth/RateLimit.antt =====
-- RateLimitStorage (gubbi/oauth/_rate_limit.py), and the delegations to it in OAuthStorage.
use gubbi.Prelude.{ℕ, ◌+◌, String, Bool, ◌&&◌, not, ◌∷◌, ◌==◌, string_eq, ltb, leb, filter, count}
use gubbi.Oauth.Db.{Db, Event}
use gubbi.Oauth.Storage.{seconds}

abbrev pub retention_secs : ℕ
retention_secs = 3600

unfoldable pub record_event : ℕ → String → Db → Db
record_event now k db = record db {
  rate_limit_events = record { event_key = k; occurred_at = seconds now } ∷ db.rate_limit_events;
}

-- `occurred_at >= now - window`, in Python's integers.
unfoldable pub count_events : ℕ → String → ℕ → Db → ℕ
count_events now k window db =
    count (λ e. e.event_key == k && leb (seconds now) (e.occurred_at + window)) db.rate_limit_events

-- `occurred_at < now - retention`; the number of rows deleted, and the database.
unfoldable pub prune : ℕ → ℕ → Db → ℕ × Db
prune now retention db =
    let old : Event → Bool = λ e. ltb (e.occurred_at + retention) (seconds now) in
    (
      count old db.rate_limit_events,
      record db { rate_limit_events = filter (λ e. not (old e)) db.rate_limit_events },
    )
