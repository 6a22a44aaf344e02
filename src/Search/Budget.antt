-- ===== src/Search/Budget.antt =====
-- How many hits _hydrate_results returns, and how long their texts are.
use gubbi.Prelude.{
  ℕ, ◌+◌, ◌≡◌, Bool, true, false, Option, none, some, List, [], ◌∷◌, refl, ◌≤◌, arith, All,
  length-append, length, count, nat_eq, list_eq,
}
use gubbi.Search.Result.{
  Text, SearchResult, or_empty, max_content_chars, length-truncate_text,
  length-truncate_title_summary,
}
use gubbi.Search.Fetch.{Session, EntryRow, ConversationRow, get_texts, get_titles_summaries}
use gubbi.Search.Hydrate.{
  entry_of, conversation_of, entry_ids, conversation_ids, hydrate_one, All-hydrate_all, hydrate_all,
  hydrate_results, hydrate_found, hydrate_found_conversation,
}

module _ {R : Type 0} where
  unfoldable pub names_row : SearchResult R → Bool
  names_row r = elim (entry_of r) [
    | some i ↦ true
    | none ↦ elim (conversation_of r) [ some i ↦ true | none ↦ false ]
  ]

  length-hydrate_all :
      (entries : Option (ℕ → Option (Text × Option Text)))
      (convs : Option (ℕ → Option (Text × Text))) (rs : List (SearchResult R))
      → length (hydrate_all entries convs rs) ≡ count names_row rs
  unfolding hydrate_all hydrate_one names_row
  length-hydrate_all entries convs [] = refl
  length-hydrate_all entries convs (r ∷ rs) = ground (
    arith,
    length-hydrate_all entries convs rs,
    length-append (hydrate_one entries convs r) (hydrate_all entries convs rs),
  )

  pub length-hydrate_results :
      (entry_rows : List ℕ → Option (List EntryRow))
      (conversation_rows : List ℕ → Option (List ConversationRow)) (merged : List (SearchResult R))
      (s : Session)
      → length (hydrate_results entry_rows conversation_rows merged s).0 ≡ count names_row merged
  unfolding hydrate_results
  length-hydrate_results entry_rows conversation_rows merged s =
      let (entries, s1) = get_texts entry_rows (entry_ids merged) s in
      let (convs, s2) = get_titles_summaries conversation_rows (conversation_ids merged) s1 in
      length-hydrate_all entries convs merged

  -- A result as the backends give it, with no text yet.
  unfoldable pub IsBare : SearchResult R → Type 0
  IsBare r = (r.content ≡ none) × (r.title ≡ none) × (r.summary ≡ none)

  -- The texts of a result are within the budget.
  unfoldable pub IsWithinBudget : SearchResult R → Type 0
  IsWithinBudget r =
      (length (or_empty r.content) ≤ max_content_chars)
      × (length (or_empty r.title) + length (or_empty r.summary) ≤ max_content_chars)

  hydrate_found-IsWithinBudget :
      (r : SearchResult R) (found : Option (Text × Option Text))
      → IsBare r
      → IsWithinBudget (hydrate_found r found)
  unfolding IsBare IsWithinBudget
  hydrate_found-IsWithinBudget r none (c, t, s) = (ground arith, rw (t, s) (ground arith))
  hydrate_found-IsWithinBudget r (some (text, reasoning)) (c, t, s) =
      (ground (arith, length-truncate_text text), rw (t, s) (ground arith))

  hydrate_found_conversation-IsWithinBudget :
      (r : SearchResult R) (found : Option (Text × Text))
      → IsBare r
      → IsWithinBudget (hydrate_found_conversation r found)
  unfolding IsBare IsWithinBudget
  hydrate_found_conversation-IsWithinBudget r none (c, t, s) = (rw c (ground arith), ground arith)
  hydrate_found_conversation-IsWithinBudget r (some (title, summary)) (c, t, s) =
      (rw c (ground arith), length-truncate_title_summary title summary)

  -- A search answers as many hits as the merged results that name an entry or a conversation, whatever
  -- the batched reads give, and when the hits carry no text yet, the texts of every answer fit the
  -- budget of 4096 characters: the content, and title and summary together.
  pub hydrate_results_lem :
      (entry_rows : List ℕ → Option (List EntryRow))
      (conversation_rows : List ℕ → Option (List ConversationRow)) (merged : List (SearchResult R))
      (s : Session)
      → All IsBare merged
      → (length (hydrate_results entry_rows conversation_rows merged s).0 ≡ count names_row merged)
        × All IsWithinBudget (hydrate_results entry_rows conversation_rows merged s).0
  unfolding hydrate_results
  hydrate_results_lem entry_rows conversation_rows merged s bare =
      let (entries, s1) = get_texts entry_rows (entry_ids merged) s in
      let (convs, s2) = get_titles_summaries conversation_rows (conversation_ids merged) s1 in
      (
        length-hydrate_results entry_rows conversation_rows merged s,
        All-hydrate_all IsWithinBudget IsBare entries convs
            (λ r q i. hydrate_found-IsWithinBudget r _ q)
            (λ r q i. hydrate_found_conversation-IsWithinBudget r _ q) merged bare,
      )
