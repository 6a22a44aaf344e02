-- ===== src/Search/Pipeline.antt =====
-- run_journal_search and _run_dual_search of gubbi/services/search.py: encoding, the two backends and
-- their failures.
use gubbi.Prelude.{
  ℕ, ◌≡◌, String, Bool, false, ◌<>◌, decimal, Option, none, some, List, [], ◌∷◌, ◌++◌,
  if◌then◌else◌, refl, Option-cases, inl, inr,
}
use gubbi.Search.Result.{SearchResult, entry}
use gubbi.Search.Fetch.{Session, EntryRow, ConversationRow, fetch, autocommit}
use gubbi.Search.Merge.{merge}
use gubbi.Search.Hydrate.{hydrate_results}
use gubbi.Search.Payload.{Payload, build_payload}

-- A row of the vector search.
pub record VectorRow (R : Type 0) : Type 0 where
  pub entry_id : Option ℕ
  pub topic : String
  pub date : String
  pub similarity : R

-- What the vector search gives on a healthy connection: rows, a PostgresError, or another exception.
pub data VectorAnswer (R : Type 0) : Type 0 where
  rows : List (VectorRow R) → VectorAnswer R
  driver_error other_error : VectorAnswer R

module _ {R : Type 0} (neg : R → R) where
  -- Rows without an identifier are dropped, and the similarity is negated into a rank.
  abbrev pub semantic_result : VectorRow R → Option ℕ → List (SearchResult R)
  semantic_result r none = []
  semantic_result r (some i) =
      record {
        source_key = "entry:" <> decimal i;
        doc_type = entry;
        topic = r.topic;
        rank = neg r.similarity;
        date = r.date;
        entry_id = some i;
        conversation_id = none;
        content = none;
        title = none;
        summary = none;
        decryption_failed = false;
      }
      ∷ []

  unfoldable pub semantic_results : List (VectorRow R) → List (SearchResult R)
  semantic_results [] = []
  semantic_results (r ∷ rs) = semantic_result r r.entry_id ++ semantic_results rs

  -- The semantic backend's hits: none for a PostgresError; `none` is an exception that is raised.
  abbrev pub answered : VectorAnswer R → Session → Option (List (SearchResult R)) × Session
  unfolding semantic_results
  answered (rows rs) s = (some (semantic_results rs), s)
  answered driver_error s = (some [], record s { aborted = s.in_transaction })
  answered other_error s = (none, s)

  unfoldable pub run_semantic :
      Option (VectorAnswer R) → Session → Option (List (SearchResult R)) × Session
  run_semantic none s = (some [], s)
  run_semantic (some answer) s = if s.aborted then (some [], s) else answered answer s

  abbrev pub merged_with :
      List (SearchResult R)
      → Option (List (SearchResult R)) × Session
      → Option (List (SearchResult R)) × Session
  unfolding merge
  merged_with fts (none, s) = (none, s)
  merged_with fts (some semantic, s) = (some (merge fts semantic), s)

  abbrev pub after_fts :
      Option (VectorAnswer R)
      → Option (List (SearchResult R)) × Session
      → Option (List (SearchResult R)) × Session
  unfolding run_semantic
  after_fts vector (none, s) = (none, s)
  after_fts vector (some fts, s) = merged_with fts (run_semantic vector s)

  -- `fts` is the full-text statement's answer; `vector` is `none` where there is no embedding.
  unfoldable pub run_dual_search :
      Option (List (SearchResult R))
      → Option (VectorAnswer R)
      → Session
      → Option (List (SearchResult R)) × Session
  unfolding fetch
  run_dual_search fts vector s = after_fts vector (fetch fts s)

  module _ (lt : R → R → Bool) where
    abbrev pub finish :
        (List ℕ → Option (List EntryRow))
        → (List ℕ → Option (List ConversationRow))
        → String
        → ℕ
        → Option (List (SearchResult R)) × Session
        → Option Payload
    unfolding hydrate_results build_payload
    finish entry_rows conversation_rows query limit (none, s) = none
    finish entry_rows conversation_rows query limit (some merged, s) =
        some
          (build_payload lt (hydrate_results entry_rows conversation_rows merged s).0 query limit)

    module _ {V : Type 0} where
      abbrev pub when_encoded : (V → VectorAnswer R) → Option V → Option (VectorAnswer R)
      when_encoded search none = none
      when_encoded search (some v) = some (search v)

      -- `encoded` is what encode_query gives: `none` where encoding failed. `none` is an exception.
      unfoldable pub run_journal_search :
          Option (List (SearchResult R))
          → (V → VectorAnswer R)
          → (List ℕ → Option (List EntryRow))
          → (List ℕ → Option (List ConversationRow))
          → String
          → ℕ
          → Option V
          → Session
          → Option Payload
      unfolding run_dual_search
      run_journal_search fts search entry_rows conversation_rows query limit encoded s =
          finish entry_rows conversation_rows query limit
            (run_dual_search fts (when_encoded search encoded) s)

      module _ (fts : Option (List (SearchResult R))) (entry_rows : List ℕ → Option (List EntryRow))
          (conversation_rows : List ℕ → Option (List ConversationRow)) (query : String) (limit : ℕ)
          (v : V) where
        -- Outside a transaction a vector search that PostgreSQL refuses degrades to full-text search:
        -- the search gives what it gives when the query could not be encoded.
        pub semantic_failure_autocommit :
            run_journal_search fts
              (λ x. driver_error)
              entry_rows
              conversation_rows
              query
              limit
              (some v)
              autocommit
            ≡ run_journal_search fts
                (λ x. driver_error)
                entry_rows
                conversation_rows
                query
                limit
                none
                autocommit
        unfolding run_journal_search run_dual_search run_semantic fetch answered
        semantic_failure_autocommit = elim (Option-cases fts) [
          | inl e ↦ rw e refl
          | inr (hits, e) ↦ rw e refl
        ]
