-- ===== src/Search/Merge.antt =====
-- The merge of the two backends, at the end of _run_dual_search (gubbi/services/search.py).
use gubbi.Prelude.{
  ◌≡◌, String, Bool, true, false, Option, none, some, List, [], ◌∷◌, ◌++◌, ◌==◌, string_eq, nat_eq,
  list_eq, if◌then◌else◌, contains, refl, ◌∙◌, arith, Bool-cases, inl, inr,
}
use gubbi.Search.Result.{SearchResult}

module _ {R : Type 0} where
  -- One of the two loops of the merge, over the keys seen so far.
  unfoldable pub merge_loop :
      List (SearchResult R)
      → List String
      → List (SearchResult R)
      → List String × List (SearchResult R)
  merge_loop [] seen merged = (seen, merged)
  merge_loop (r ∷ rs) seen merged =
      merge_loop rs (if contains seen r.source_key then seen else r.source_key ∷ seen)
        (if contains seen r.source_key then merged else merged ++ (r ∷ []))

  -- FTS first, semantic second.
  unfoldable pub merge : List (SearchResult R) → List (SearchResult R) → List (SearchResult R)
  unfolding merge_loop
  merge fts semantic =
      let (seen, merged) = merge_loop fts [] [] in (merge_loop semantic seen merged).1

module _ {R : Type 0} where
  -- The first result with a key.
  unfoldable pub find_key : String → List (SearchResult R) → Option (SearchResult R)
  find_key k [] = none
  find_key k (r ∷ rs) = let rest = find_key k rs in if r.source_key == k then some r else rest

  abbrev pub or_else : Option (SearchResult R) → Option (SearchResult R) → Option (SearchResult R)
  or_else none b = b
  or_else (some a) b = some a

  abbrev pub found : Option (SearchResult R) → Bool
  found none = false
  found (some a) = true

  -- No key comes twice.
  unfoldable pub DistinctKeys : List (SearchResult R) → Type 0
  DistinctKeys [] = Unit
  DistinctKeys (r ∷ rs) = (find_key r.source_key rs ≡ none) × DistinctKeys rs

  find_key-append :
      (k : String) (xs ys : List (SearchResult R))
      → find_key k (xs ++ ys) ≡ or_else (find_key k xs) (find_key k ys)
  unfolding find_key
  find_key-append k [] ys = refl
  find_key-append k (x ∷ xs) ys = ground (arith, find_key-append k xs ys)

  DistinctKeys-append :
      (xs : List (SearchResult R)) (r : SearchResult R)
      → DistinctKeys xs
      → find_key r.source_key xs ≡ none
      → DistinctKeys (xs ++ (r ∷ []))
  unfolding DistinctKeys find_key
  DistinctKeys-append [] r d fresh = (refl, tt)
  DistinctKeys-append (x ∷ xs) r (first, d) fresh = (
    ground (arith, find_key-append x.source_key xs (r ∷ [])),
    DistinctKeys-append xs r d (ground arith),
  )

  -- The loop's invariant: `seen` holds the keys of `merged`, each once.
  record IsMerged (seen : List String) (merged : List (SearchResult R)) : Type 0 where
    keys : (k : String) → contains seen k ≡ found (find_key k merged)
    distinct : DistinctKeys merged

  step-IsMerged :
      (r : SearchResult R) (seen : List String) (merged : List (SearchResult R))
      → IsMerged seen merged
      → IsMerged
          (if contains seen r.source_key then seen else r.source_key ∷ seen)
          (if contains seen r.source_key then merged else merged ++ (r ∷ []))
  unfolding find_key
  step-IsMerged r seen merged inv = elim (Bool-cases (contains seen r.source_key)) [
    | inl old ↦ rw old inv
    | inr new ↦ rw new (record {
      keys = λ k. ground (arith, inv.keys k, find_key-append k merged (r ∷ []));
      distinct = DistinctKeys-append merged r inv.distinct (ground (arith, inv.keys r.source_key));
    })
  ]

  merge_loop-IsMerged :
      (rs : List (SearchResult R)) (seen : List String) (merged : List (SearchResult R))
      → IsMerged seen merged
      → IsMerged (merge_loop rs seen merged).0 (merge_loop rs seen merged).1
  unfolding merge_loop
  merge_loop-IsMerged [] seen merged inv = inv
  merge_loop-IsMerged (r ∷ rs) seen merged inv =
      merge_loop-IsMerged rs _ _ (step-IsMerged r seen merged inv)

  find_key-step :
      (k : String) (r : SearchResult R) (seen : List String) (merged : List (SearchResult R))
      → IsMerged seen merged
      → find_key k (if contains seen r.source_key then merged else merged ++ (r ∷ []))
        ≡ or_else (find_key k merged) (find_key k (r ∷ []))
  unfolding find_key
  find_key-step k r seen merged inv =
      ground (arith, inv.keys r.source_key, inv.keys k, find_key-append k merged (r ∷ []))

  find_key-merge_loop :
      (k : String) (rs : List (SearchResult R)) (seen : List String)
      (merged : List (SearchResult R))
      → IsMerged seen merged
      → find_key k (merge_loop rs seen merged).1 ≡ or_else (find_key k merged) (find_key k rs)
  unfolding merge_loop find_key
  find_key-merge_loop k [] seen merged inv = ground arith
  find_key-merge_loop k (r ∷ rs) seen merged inv =
      find_key-merge_loop k rs _ _ (step-IsMerged r seen merged inv)
      ∙ ground (arith, find_key-step k r seen merged inv)

  empty-IsMerged : IsMerged [] []
  unfolding find_key DistinctKeys
  empty-IsMerged = record { keys = λ k. refl; distinct = tt }

  -- The merge keeps one result for each key: the first FTS hit with the key, and where FTS has none,
  -- the first semantic hit. No key comes twice.
  pub merge_lem :
      (fts semantic : List (SearchResult R)) (k : String)
      → (find_key k (merge fts semantic) ≡ or_else (find_key k fts) (find_key k semantic))
        × DistinctKeys (merge fts semantic)
  unfolding merge find_key
  merge_lem fts semantic k =
      let inv = merge_loop-IsMerged fts [] [] empty-IsMerged in
      (
        find_key-merge_loop k semantic _ _ inv
            ∙ ground (arith, find_key-merge_loop k fts [] [] empty-IsMerged),
        (merge_loop-IsMerged semantic _ _ inv).distinct,
      )
