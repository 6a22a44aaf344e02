-- ===== src/Oauth/Atomic.antt =====
-- The _atomic context manager of OAuthStorage: all statements of the block, or none.
use gubbi.Prelude.{
  ◌≡◌, refl, ◌∙◌, Bool, true, false, none, some, List, [], ◌∷◌, ◌++◌, inl, inr, ◌⊎◌, ap,
}
use gubbi.Oauth.Db.{Db}
use gubbi.Oauth.Storage.{run_statements, atomic, no_effect, settle}

-- All statements, one after the other.
unfoldable pub run_all : List (Db → Db) → Db → Db
run_all [] db = db
run_all (s ∷ ss) db = run_all ss (s db)

run_statements-cases :
    (ss : List (Db → Db)) (outcomes : List Bool) (db : Db)
    → (run_statements ss outcomes db ≡ none)
      ⊎ (run_statements ss outcomes db ≡ some (run_all ss db))
unfolding run_statements run_all
run_statements-cases [] outcomes db = inr refl
run_statements-cases (s ∷ ss) [] db = run_statements-cases ss [] (s db)
run_statements-cases (s ∷ ss) (false ∷ outcomes) db = inl refl
run_statements-cases (s ∷ ss) (true ∷ outcomes) db = run_statements-cases ss outcomes (s db)

pub run_all-append :
    (ss tt' : List (Db → Db)) (db : Db) → run_all (ss ++ tt') db ≡ run_all tt' (run_all ss db)
unfolding run_all
run_all-append [] tt' db = refl
run_all-append (s ∷ ss) tt' db = run_all-append ss tt' (s db)

-- A block that raised has changed nothing; one that did not has run every statement.
pub atomic-cases :
    (body : List (Db → Db)) (outcomes : List Bool) (db : Db)
    → (atomic body outcomes db ≡ (false, db)) ⊎ (atomic body outcomes db ≡ (true, run_all body db))
unfolding atomic run_all
atomic-cases body outcomes db =
    elim (run_statements-cases (no_effect ∷ (body ++ (no_effect ∷ []))) outcomes db) [
      | inl raised ↦ inl (ap (settle db) raised)
      | inr done ↦ inr (ap (settle db) (done ∙ ap some (run_all-append body (no_effect ∷ []) db)))
    ]

run_statements_succeeds :
    (ss : List (Db → Db)) (db : Db) → run_statements ss [] db ≡ some (run_all ss db)
unfolding run_statements run_all
run_statements_succeeds [] db = refl
run_statements_succeeds (s ∷ ss) db = run_statements_succeeds ss (s db)

-- Where SQLite refuses no statement the block returns.
pub atomic_succeeds :
    (body : List (Db → Db)) (db : Db) → atomic body [] db ≡ (true, run_all body db)
unfolding atomic run_all
atomic_succeeds body db = ap (settle db) (
    run_statements_succeeds (body ++ (no_effect ∷ [])) db
    ∙ ap some (run_all-append body (no_effect ∷ []) db))
