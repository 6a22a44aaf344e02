-- ===== src/Search/Payload.antt =====
-- _build_payload of gubbi/services/search.py.
use gubbi.Prelude.{
  ℕ, ◌≡◌, String, Bool, true, false, Option, List, [], ◌∷◌, ◌++◌, string_eq, nat_eq, list_eq,
  if◌then◌else◌, length, take, refl, ◌≤◌, arith, Bool-cases, inl, inr, count, length-take,
}
use gubbi.Search.Result.{or_empty, Text, SearchResult, entry, conversation, memory}

-- A record of the payload.
pub data Item : Type 0 where
  entry_item :
      (topic date : String) (entry_id : Option ℕ) (content : Text) (decryption_failed : Bool) → Item
  conversation_item :
      (topic date : String) (conversation_id : Option ℕ) (title summary : Text)
      (decryption_failed : Bool)
      → Item

pub record Payload : Type 0 where
  pub results : List Item
  pub total : ℕ
  pub query : String

module _ {R : Type 0} where
  -- What the payload loop appends for a result.
  unfoldable pub to_items : SearchResult R → List Item
  to_items r = elim r.doc_type [
    | entry ↦ entry_item r.topic r.date r.entry_id (or_empty r.content) r.decryption_failed ∷ []
    | conversation ↦
        conversation_item r.topic r.date r.conversation_id (or_empty r.title) (or_empty r.summary)
          r.decryption_failed
        ∷ []
    | memory ↦ []
  ]

  unfoldable pub collect_items : List (SearchResult R) → List Item
  unfolding to_items
  collect_items [] = []
  collect_items (r ∷ rs) = to_items r ++ collect_items rs

module _ {R : Type 0} (lt : R → R → Bool) where
  -- sorted(..., key=rank), which is stable: `r` goes before the first result that is not below it.
  unfoldable pub insert_ranked : SearchResult R → List (SearchResult R) → List (SearchResult R)
  insert_ranked r [] = r ∷ []
  insert_ranked r (s ∷ rs) =
      let later = s ∷ insert_ranked r rs in if lt s.rank r.rank then later else r ∷ (s ∷ rs)

  unfoldable pub sort_ranked : List (SearchResult R) → List (SearchResult R)
  unfolding insert_ranked
  sort_ranked [] = []
  sort_ranked (r ∷ rs) = insert_ranked r (sort_ranked rs)

  unfoldable pub build_payload : List (SearchResult R) → String → ℕ → Payload
  unfolding sort_ranked collect_items
  build_payload hydrated query limit =
      let results = collect_items (take limit (sort_ranked hydrated)) in
      record { results = results; total = length results; query = query }

  -- Ascending: no result is above the next one.
  unfoldable pub IsSorted : List (SearchResult R) → Type 0
  IsSorted [] = Unit
  IsSorted (r ∷ []) = Unit
  IsSorted (r ∷ (s ∷ rs)) = (lt s.rank r.rank ≡ false) × IsSorted (s ∷ rs)

  IsSorted-tail :
      (r : SearchResult R) (rs : List (SearchResult R)) → IsSorted (r ∷ rs) → IsSorted rs
  unfolding IsSorted
  IsSorted-tail r [] h = tt
  IsSorted-tail r (s ∷ rs) h = h.1

  count-insert_ranked :
      (test : SearchResult R → Bool) (r : SearchResult R) (rs : List (SearchResult R))
      → count test (insert_ranked r rs) ≡ count test (r ∷ rs)
  unfolding insert_ranked
  count-insert_ranked test r [] = refl
  count-insert_ranked test r (s ∷ rs) = ground (arith, count-insert_ranked test r rs)

  count-sort_ranked :
      (test : SearchResult R → Bool) (rs : List (SearchResult R))
      → count test (sort_ranked rs) ≡ count test rs
  unfolding sort_ranked
  count-sort_ranked test [] = refl
  count-sort_ranked test (r ∷ rs) =
      ground (arith, count-insert_ranked test r (sort_ranked rs), count-sort_ranked test rs)

  length-collect_items : (rs : List (SearchResult R)) → length (collect_items rs) ≤ length rs
  unfolding collect_items to_items
  length-collect_items [] = omega arith
  length-collect_items (r ∷ rs) = ground (arith, length-collect_items rs)

  module _ (asym : (a b : R) → lt a b ≡ true → lt b a ≡ false) where
    -- What follows `s` after an insertion of a result above it.
    IsSorted-insert_below :
        (r s t : SearchResult R) (rs later : List (SearchResult R))
        → lt s.rank r.rank ≡ true
        → lt t.rank s.rank ≡ false
        → IsSorted (if lt t.rank r.rank then t ∷ later else r ∷ (t ∷ rs))
        → IsSorted (s ∷ (if lt t.rank r.rank then t ∷ later else r ∷ (t ∷ rs)))
    unfolding IsSorted
    IsSorted-insert_below r s t rs later above first = elim (Bool-cases (lt t.rank r.rank)) [
      | inl f ↦ rw f (λ h. (first, h))
      | inr f ↦ rw f (λ h. (asym s.rank r.rank above, h))
    ]

    insert_ranked-IsSorted :
        (r : SearchResult R) (rs : List (SearchResult R))
        → IsSorted rs
        → IsSorted (insert_ranked r rs)
    unfolding insert_ranked IsSorted
    insert_ranked-IsSorted r [] h = tt
    insert_ranked-IsSorted r (s ∷ []) h = elim (Bool-cases (lt s.rank r.rank)) [
      | inl e ↦ rw e (asym s.rank r.rank e, tt)
      | inr e ↦ rw e (e, h)
    ]
    insert_ranked-IsSorted r (s ∷ (t ∷ rs)) h = elim (Bool-cases (lt s.rank r.rank)) [
      | inl e ↦
          rw e (IsSorted-insert_below r s t rs _ e h.0 (insert_ranked-IsSorted r (t ∷ rs) h.1))
      | inr e ↦ rw e (e, h)
    ]

    sort_ranked-IsSorted : (rs : List (SearchResult R)) → IsSorted (sort_ranked rs)
    unfolding sort_ranked IsSorted
    sort_ranked-IsSorted [] = tt
    sort_ranked-IsSorted (r ∷ rs) =
        insert_ranked-IsSorted r (sort_ranked rs) (sort_ranked-IsSorted rs)

    -- Where the order of ranks is asymmetric, the payload's records are those of the first `limit`
    -- results of an ascending rearrangement of the results; `total` counts the records, and there are
    -- at most `limit` of them.
    pub build_payload_lem :
        (hydrated : List (SearchResult R)) (query : String) (limit : ℕ)
        → (sorted : List (SearchResult R)) × IsSorted sorted
          × ((test : SearchResult R → Bool) → count test sorted ≡ count test hydrated)
          × ((build_payload hydrated query limit).results ≡ collect_items (take limit sorted))
          × ((build_payload hydrated query limit).total
              ≡ length (build_payload hydrated query limit).results)
          × ((build_payload hydrated query limit).total ≤ limit)
    unfolding build_payload
    build_payload_lem hydrated query limit = (
      sort_ranked hydrated,
      sort_ranked-IsSorted hydrated,
      (λ test. count-sort_ranked test hydrated),
      refl,
      refl,
      ground (
        arith,
        length-collect_items (take limit (sort_ranked hydrated)),
        length-take limit (sort_ranked hydrated),
      ),
    )
