-- ===== src/Oauth/Lockout.antt =====
-- The rate limit of the login form over time.
use gubbi.Prelude.{
  ℕ, suc, ◌+◌, ◌≤◌, ◌≡◌, refl, String, not, List, [], ◌∷◌, arith, ◌==◌, string_eq, if◌then◌else◌,
  filter, count, ◌&&◌, ltb, leb,
}
use gubbi.Oauth.Db.{Db, Event}
use gubbi.Oauth.Storage.{seconds, save_auth_code}
use gubbi.Oauth.RateLimit.{record_event, count_events, prune}
use gubbi.Oauth.Login.{
  LoginConfig, LoginForm, Attempt, serve, too_many_attempts, login_post, event_key,
  login_max_failures, lockout_window_secs,
}

count_at : ℕ → String → ℕ → List Event → ℕ
count_at t k window = count (λ e. e.event_key == k && leb t (e.occurred_at + window))

count_at-later :
    (t u : ℕ) (k : String) (window : ℕ) (es : List Event)
    → t ≤ u
    → count_at u k window es ≤ count_at t k window es
unfolding count_at
count_at-later t u k window [] h = omega arith
count_at-later t u k window (e ∷ es) h = ground (arith, count_at-later t u k window es h)

count_at-prune :
    (t u : ℕ) (k : String) (window retention : ℕ) (es : List Event)
    → window ≤ retention
    → t ≤ u
    → count_at u k window (filter (λ e. not (ltb (e.occurred_at + retention) t)) es)
      ≡ count_at u k window es
unfolding count_at
count_at-prune t u k window retention [] h l = refl
count_at-prune t u k window retention (e ∷ es) h l =
    ground (arith, count_at-prune t u k window retention es h l)

-- Pruning forgets no event that a window up to the retention still counts, at the time of the
-- pruning or later.
pub count_events-prune :
    (now later : ℕ) (k : String) (window retention : ℕ) (db : Db)
    → window ≤ retention
    → now ≤ later
    → count_events later k window (prune now retention db).1 ≡ count_events later k window db
unfolding count_events prune count_at
count_events-prune now later k window retention db h l =
    count_at-prune (seconds now) (seconds later) k window retention db.rate_limit_events h
      (omega arith)

-- After ten failures in the window every POST from the address is refused, also with the right
-- password, and changes nothing.
pub login_post_locked :
    (config : LoginConfig) (now : ℕ) (client_host code : String) (form : LoginForm)
    (cookie : String) (db : Db)
    → login_max_failures ≤ count_events now (event_key client_host) lockout_window_secs db
    → login_post config now client_host code form cookie db ≡ (too_many_attempts, db)
unfolding login_post
login_post_locked config now client_host code form cookie db h = ground arith

pub count_events-record :
    (now : ℕ) (k j : String) (window : ℕ) (db : Db)
    → count_events now k window (record_event now j db)
      ≡ (if j == k then suc (count_events now k window db) else count_events now k window db)
unfolding count_events record_event
count_events-record now k j window db = ground arith

module _ (config : LoginConfig) where
  -- One POST, from any address, keeps the failures of an address in the window at ten or fewer.
  login_post_bounded :
      (now : ℕ) (host client_host code : String) (form : LoginForm) (cookie : String) (db : Db)
      → count_events now (event_key host) lockout_window_secs db ≤ login_max_failures
      → count_events now
          (event_key host)
          lockout_window_secs
          (login_post config now client_host code form cookie db).1
        ≤ login_max_failures
  unfolding login_post save_auth_code count_events record_event
  login_post_bounded now host client_host code form cookie db h = ground arith

-- The requests come in the order of the clock, from `start` to `stop`.
abbrev Ordered : ℕ → List Attempt → ℕ → Type 0
Ordered start [] stop = start ≤ stop
Ordered start (a ∷ rest) stop = (start ≤ a.time) × Ordered a.time rest stop

pub count_events-later :
    (now later : ℕ) (k : String) (window : ℕ) (db : Db)
    → now ≤ later
    → count_events later k window db ≤ count_events now k window db
unfolding count_events count_at
count_events-later now later k window db h =
    count_at-later (seconds now) (seconds later) k window db.rate_limit_events (omega arith)

-- Whatever requests are served one after the other in the order of the clock, from whatever
-- addresses, at no time do more than ten failures of one address stand in the five-minute window,
-- if there were no more at the start.
pub serve_bounded :
    (config : LoginConfig) (host : String) (start : ℕ) (attempts : List Attempt) (stop : ℕ)
    (db : Db)
    → Ordered start attempts stop
    → count_events start (event_key host) lockout_window_secs db ≤ login_max_failures
    → count_events stop (event_key host) lockout_window_secs (serve config attempts db)
      ≤ login_max_failures
unfolding serve
serve_bounded config host start [] stop db o h =
    omega (arith, count_events-later start stop (event_key host) lockout_window_secs db o)
serve_bounded config host start (a ∷ rest) stop db (o, os) h =
    serve_bounded config host a.time rest stop
      (login_post config a.time a.client_host a.code a.form a.cookie db).1 os
      (login_post_bounded config a.time host a.client_host a.code a.form a.cookie db
        (omega (arith, count_events-later start a.time (event_key host) lockout_window_secs db o)))
