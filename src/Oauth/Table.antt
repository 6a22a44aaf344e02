-- ===== src/Oauth/Table.antt =====
-- A SQLite table with a text primary key: its rows, and the statements that the storage makes.
use gubbi.Prelude.{
  ℕ, ◌≡◌, refl, ◌∙◌, String, Bool, not, Option, none, some, List, [], ◌∷◌, arith, ◌==◌, string_eq,
  if◌then◌else◌, filter, inl, inr, Bool-cases, ==_self,
}

pub record Row (A : Type 0) : Type 0 where
  pub key : String
  pub body : A
  pub created_at : ℕ
  pub expires_at : Option ℕ

abbrev pub Table : Type 0 → Type 0
Table A = List (Row A)

module _ {A : Type 0} where
  -- `SELECT ... WHERE key = ?` with fetchone().
  unfoldable pub lookup : String → Table A → Option (Row A)
  lookup k [] = none
  lookup k (r ∷ t) = let rest = lookup k t in if r.key == k then some r else rest

  -- `DELETE ... WHERE key = ?`.
  unfoldable pub erase : String → Table A → Table A
  erase k t = filter (λ r. not (r.key == k)) t

  -- `INSERT OR REPLACE`.
  unfoldable pub upsert : Row A → Table A → Table A
  unfolding erase
  upsert r t = r ∷ erase r.key t

  -- The primary key: no two rows share one.
  unfoldable pub UniqueKeys : Table A → Type 0
  UniqueKeys [] = Unit
  UniqueKeys (r ∷ t) = (lookup r.key t ≡ none) × UniqueKeys t

  abbrev pub keep_if : (Row A → Bool) → Option (Row A) → Option (Row A)
  keep_if keep none = none
  keep_if keep (some r) = if keep r then some r else none

  -- A DELETE with any condition removes, of each key, the row that meets it.
  pub lookup-filter :
      (keep : Row A → Bool) (k : String) (t : Table A)
      → UniqueKeys t
      → lookup k (filter keep t) ≡ keep_if keep (lookup k t)
  unfolding lookup UniqueKeys
  lookup-filter keep k [] u = refl
  lookup-filter keep k (r ∷ t) (fresh, u) = ground (arith, lookup-filter keep k t u)

  pub lookup-erase :
      (k j : String) (t : Table A) → lookup j (erase k t) ≡ (if k == j then none else lookup j t)
  unfolding lookup erase
  lookup-erase k j [] = ground arith
  lookup-erase k j (r ∷ t) = ground (arith, lookup-erase k j t)

  pub lookup-upsert :
      (r : Row A) (j : String) (t : Table A)
      → lookup j (upsert r t) ≡ (if r.key == j then some r else lookup j t)
  unfolding lookup upsert
  lookup-upsert r j t = ground (arith, lookup-erase r.key j t)

  pub filter-UniqueKeys :
      (keep : Row A → Bool) (t : Table A) → UniqueKeys t → UniqueKeys (filter keep t)
  unfolding UniqueKeys
  filter-UniqueKeys keep [] u = tt
  filter-UniqueKeys keep (r ∷ t) (fresh, u) = elim (Bool-cases (keep r)) [
    | inl e ↦ rw e (lookup-filter keep r.key t u ∙ rw fresh, filter-UniqueKeys keep t u)
    | inr e ↦ rw e (filter-UniqueKeys keep t u)
  ]

  pub upsert-UniqueKeys : (r : Row A) (t : Table A) → UniqueKeys t → UniqueKeys (upsert r t)
  unfolding UniqueKeys upsert
  upsert-UniqueKeys r t u = (
    lookup-erase r.key r.key t ∙ rw (==_self r.key),
    filter-UniqueKeys (λ s. not (s.key == r.key)) t u,
  )

  pub erase-UniqueKeys : (k : String) (t : Table A) → UniqueKeys t → UniqueKeys (erase k t)
  unfolding erase
  erase-UniqueKeys k t u = filter-UniqueKeys (λ s. not (s.key == k)) t u
