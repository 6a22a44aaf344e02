-- ===== src/Journal/Rows.antt =====
-- Lists of rows under two tests that agree on each of them.
use gubbi.Prelude.{
  ◌≡◌, refl, Bool, true, false, not, List, [], ◌∷◌, map, filter, count, any, All, if◌then◌else◌,
  arith, some,
}
use gubbi.Journal.Store.{rewrite, find_row}

module _ {R : Type 0} where
  abbrev pub Agree : (R → Bool) → (R → Bool) → List R → Type 0
  Agree p q rs = All (λ r. p r ≡ q r) rs

  abbrev pub map_where : (R → Bool) → (R → R) → List R → List R
  map_where q f = map (λ r. if q r then f r else r)

  pub rewrite-Agree :
      (p q : R → Bool) (f : R → R) (rs : List R) → Agree p q rs → rewrite p f rs ≡ map_where q f rs
  rewrite-Agree p q f [] h = refl
  rewrite-Agree p q f (r ∷ rs) (e, h) = rw (e, rewrite-Agree p q f rs h) refl

  pub count-Agree : (p q : R → Bool) (rs : List R) → Agree p q rs → count p rs ≡ count q rs
  count-Agree p q [] h = refl
  count-Agree p q (r ∷ rs) (e, h) = rw (e, count-Agree p q rs h) refl

  pub filter-not-Agree :
      (p q : R → Bool) (rs : List R)
      → Agree p q rs
      → filter (λ r. not (p r)) rs ≡ filter (λ r. not (q r)) rs
  filter-not-Agree p q [] h = refl
  filter-not-Agree p q (r ∷ rs) (e, h) = rw (e, filter-not-Agree p q rs h) refl

  -- A test that no rewritten row and no other row passes.
  pub any-map_where :
      (p q : R → Bool) (f : R → R) (rs : List R)
      → ((r : R) → q r ≡ true → p (f r) ≡ false)
      → ((r : R) → q r ≡ false → p r ≡ false)
      → any p (map_where q f rs) ≡ false
  any-map_where p q f [] h k = refl
  any-map_where p q f (r ∷ rs) h k = ground (arith, h r, k r, any-map_where p q f rs h k)

  pub any_of_find_row :
      (p q : R → Bool) (rs : List R) (a : R)
      → ((r : R) → p r ≡ true → q r ≡ true)
      → find_row p rs ≡ some a
      → any q rs ≡ true
  any_of_find_row p q [] a h found = ground arith
  any_of_find_row p q (r ∷ rs) a h found = ground (arith, h r, any_of_find_row p q rs a h)
