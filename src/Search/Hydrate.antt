-- ===== src/Search/Hydrate.antt =====
-- _hydrate_results of gubbi/services/search.py.
use gubbi.Prelude.{
  ℕ, true, Option, none, some, List, [], ◌∷◌, ◌++◌, ◌==◌, string_eq, nat_eq, list_eq, if◌then◌else◌,
  contains, All-append, All, All-append,
}
use gubbi.Search.Result.{
  Text, SearchResult, entry, conversation, memory, truncate_text, truncate_title_summary,
  failed_sentinel, repo_failed_sentinel,
}
use gubbi.Search.Fetch.{
  Session, EntryRow, ConversationRow, get_texts, get_titles_summaries, batch_get,
}

abbrev add_id : Option ℕ → List ℕ → List ℕ
add_id none ids = ids
add_id (some i) ids = if contains ids i then ids else i ∷ ids

module _ {R : Type 0} where
  abbrev pub failed_entry : SearchResult R → SearchResult R
  failed_entry r = record r { content = some failed_sentinel; decryption_failed = true }

  -- The fetched content and reasoning of an entry, or nothing.
  abbrev pub hydrate_found : SearchResult R → Option (Text × Option Text) → SearchResult R
  hydrate_found r none = failed_entry r
  hydrate_found r (some (text, reasoning)) = record r {
    content = some (if text == repo_failed_sentinel then failed_sentinel else truncate_text text);
    decryption_failed = text == repo_failed_sentinel;
  }

  abbrev pub failed_conversation : SearchResult R → SearchResult R
  failed_conversation r = record r {
    title = some failed_sentinel;
    summary = some failed_sentinel;
    decryption_failed = true;
  }

  abbrev pub hydrate_found_conversation : SearchResult R → Option (Text × Text) → SearchResult R
  hydrate_found_conversation r none = failed_conversation r
  hydrate_found_conversation r (some (title, summary)) = record r {
    title = some (truncate_title_summary title summary).0;
    summary = some (truncate_title_summary title summary).1;
  }

  -- The entry or conversation that a result names, as _hydrate_results tests it.
  abbrev pub entry_of : SearchResult R → Option ℕ
  entry_of r = elim r.doc_type [ entry ↦ r.entry_id | conversation ↦ none | memory ↦ none ]

  abbrev pub conversation_of : SearchResult R → Option ℕ
  conversation_of r = elim r.doc_type [
    | entry ↦ none
    | conversation ↦ r.conversation_id
    | memory ↦ none
  ]

  -- The sets of identifiers to fetch.
  unfoldable pub entry_ids : List (SearchResult R) → List ℕ
  entry_ids [] = []
  entry_ids (r ∷ rs) = add_id (entry_of r) (entry_ids rs)

  unfoldable pub conversation_ids : List (SearchResult R) → List ℕ
  conversation_ids [] = []
  conversation_ids (r ∷ rs) = add_id (conversation_of r) (conversation_ids rs)

  abbrev pub keep_conversation :
      Option (ℕ → Option (Text × Text)) → SearchResult R → Option ℕ → List (SearchResult R)
  keep_conversation convs r none = []
  keep_conversation convs r (some i) = hydrate_found_conversation r (batch_get convs i) ∷ []

  abbrev pub keep_hit :
      Option (ℕ → Option (Text × Option Text))
      → Option (ℕ → Option (Text × Text))
      → SearchResult R
      → Option ℕ
      → List (SearchResult R)
  keep_hit entries convs r none = keep_conversation convs r (conversation_of r)
  keep_hit entries convs r (some i) = hydrate_found r (batch_get entries i) ∷ []

  -- What the final loop appends for a result: nothing for one that names no row.
  unfoldable pub hydrate_one :
      Option (ℕ → Option (Text × Option Text))
      → Option (ℕ → Option (Text × Text))
      → SearchResult R
      → List (SearchResult R)
  hydrate_one entries convs r = keep_hit entries convs r (entry_of r)

  unfoldable pub hydrate_all :
      Option (ℕ → Option (Text × Option Text))
      → Option (ℕ → Option (Text × Text))
      → List (SearchResult R)
      → List (SearchResult R)
  unfolding hydrate_one
  hydrate_all entries convs [] = []
  hydrate_all entries convs (r ∷ rs) = hydrate_one entries convs r ++ hydrate_all entries convs rs

  -- _hydrate_results: the two batched fetches, and the loop.
  unfoldable pub hydrate_results :
      (List ℕ → Option (List EntryRow))
      → (List ℕ → Option (List ConversationRow))
      → List (SearchResult R)
      → Session
      → List (SearchResult R) × Session
  unfolding entry_ids conversation_ids hydrate_all get_texts get_titles_summaries
  hydrate_results entry_rows conversation_rows merged s =
      let (entries, s1) = get_texts entry_rows (entry_ids merged) s in
      let (convs, s2) = get_titles_summaries conversation_rows (conversation_ids merged) s1 in
      (hydrate_all entries convs merged, s2)

  -- What holds of every hydrated result that comes from a result with `Q`.
  module _ (P Q : SearchResult R → Type 0) (entries : Option (ℕ → Option (Text × Option Text)))
      (convs : Option (ℕ → Option (Text × Text)))
      (of_entry : (r : SearchResult R) → Q r → (i : ℕ) → P (hydrate_found r (batch_get entries i)))
      (of_conversation : (r : SearchResult R)
        → Q r
        → (i : ℕ) → P (hydrate_found_conversation r (batch_get convs i))) where
    All-keep_conversation :
        (r : SearchResult R) → Q r → (o : Option ℕ) → All P (keep_conversation convs r o)
    All-keep_conversation r q none = tt
    All-keep_conversation r q (some i) = (of_conversation r q i, tt)

    All-keep_hit : (r : SearchResult R) → Q r → (o : Option ℕ) → All P (keep_hit entries convs r o)
    All-keep_hit r q none = All-keep_conversation r q (conversation_of r)
    All-keep_hit r q (some i) = (of_entry r q i, tt)

    pub All-hydrate_all :
        (rs : List (SearchResult R)) → All Q rs → All P (hydrate_all entries convs rs)
    unfolding hydrate_all hydrate_one
    All-hydrate_all [] qs = tt
    All-hydrate_all (r ∷ rs) (q, qs) =
        All-append P (hydrate_one entries convs r) (hydrate_all entries convs rs)
          (All-keep_hit r q (entry_of r)) (All-hydrate_all rs qs)
