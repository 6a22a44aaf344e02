-- ===== src/Search/Failure.antt =====
-- Hits whose batch failed: _hydrate_results of gubbi/services/search.py after an error.
use gubbi.Prelude.{
  ℕ, ◌≡◌, true, Option, none, some, List, refl, sym, subst, arith, All, All-always, nat_eq, list_eq,
}
use gubbi.Search.Result.{Text, SearchResult}
use gubbi.Search.Fetch.{
  EntryRow, ConversationRow, get_texts, get_titles_summaries, batch_get, aborted_transaction,
  get_texts-aborted, get_titles_summaries-aborted,
}
use gubbi.Search.Hydrate.{
  entry_ids, conversation_ids, All-hydrate_all, hydrate_results, hydrate_found,
  hydrate_found_conversation,
}

module _ {R : Type 0} where
  unfoldable pub HydrateFailed : SearchResult R → Type 0
  HydrateFailed r = r.decryption_failed ≡ true

  hydrate_found-failed :
      (r : SearchResult R) (found : Option (Text × Option Text))
      → found ≡ none
      → HydrateFailed (hydrate_found r found)
  unfolding HydrateFailed
  hydrate_found-failed r none e = refl
  hydrate_found-failed r (some f) e = ground arith

  hydrate_found_conversation-failed :
      (r : SearchResult R) (found : Option (Text × Text))
      → found ≡ none
      → HydrateFailed (hydrate_found_conversation r found)
  unfolding HydrateFailed
  hydrate_found_conversation-failed r none e = refl
  hydrate_found_conversation-failed r (some f) e = ground arith

  -- In an aborted transaction every hit comes back marked as failed.
  pub hydrate_results-aborted :
      (entry_rows : List ℕ → Option (List EntryRow))
      (conversation_rows : List ℕ → Option (List ConversationRow)) (merged : List (SearchResult R))
      → All HydrateFailed
          (hydrate_results entry_rows conversation_rows merged aborted_transaction).0
  unfolding hydrate_results
  hydrate_results-aborted entry_rows conversation_rows merged =
      let (entries_aborted, no_entry) = get_texts-aborted entry_rows (entry_ids merged) in
      let (entries, s1) = get_texts entry_rows (entry_ids merged) aborted_transaction in
      let (convs, s2) = get_titles_summaries conversation_rows (conversation_ids merged) s1 in
      All-hydrate_all HydrateFailed (λ r. Unit) entries convs
        (λ r q i. hydrate_found-failed r _ (no_entry i))
        (λ r q i. hydrate_found_conversation-failed r _ (
          subst
            (λ s.
              batch_get (get_titles_summaries conversation_rows (conversation_ids merged) s).0 i
              ≡ none)
            (sym entries_aborted)
            (get_titles_summaries-aborted conversation_rows (conversation_ids merged) i)))
        merged (All-always (λ r. Unit) (λ r. tt) merged)
