-- ===== src/Search/Tests.antt =====
-- Runs of the search model on small results. The ranks are numbers.
use gubbi.Prelude.{
  ℕ, ◌≡◌, ◌≤◌, refl, String, Bool, true, false, Option, none, some, List, [], ◌∷◌, length, count,
  take, All, ltb, arith, codes, nat_eq, string_eq, list_eq,
}
use gubbi.Search.Result.{SearchResult, entry}
use gubbi.Search.Fetch.{EntryRow, ConversationRow, open_transaction}
use gubbi.Search.Merge.{merge, find_key, or_else, DistinctKeys, merge_lem}
use gubbi.Search.Hydrate.{hydrate_results}
use gubbi.Search.Budget.{names_row, IsBare, IsWithinBudget, hydrate_results_lem}
use gubbi.Search.Payload.{IsSorted, build_payload, collect_items, build_payload_lem}

abbrev hit : String → ℕ → ℕ → SearchResult ℕ
hit key i rank = record {
  source_key = key;
  doc_type = entry;
  topic = "work";
  rank = rank;
  date = "2026-01-01";
  entry_id = some i;
  conversation_id = none;
  content = none;
  title = none;
  summary = none;
  decryption_failed = false;
}

abbrev full_text : List (SearchResult ℕ)
full_text = hit "entry:1" 1 5 ∷ (hit "entry:2" 2 3 ∷ [])

abbrev semantic : List (SearchResult ℕ)
semantic = hit "entry:2" 2 9 ∷ (hit "entry:3" 3 1 ∷ [])

abbrev vector : ℕ
vector = 0

abbrev no_vector : Option ℕ
no_vector = none

abbrev entry_rows : List ℕ → Option (List EntryRow)
entry_rows ids = some (record { id = 1; opened = some (codes "text", none) } ∷ [])

abbrev conversation_rows : List ℕ → Option (List ConversationRow)
conversation_rows ids = some []

merge_lem_example :
    (find_key "entry:2" (merge full_text semantic)
      ≡ or_else (find_key "entry:2" full_text) (find_key "entry:2" semantic))
    × DistinctKeys (merge full_text semantic)
merge_lem_example = merge_lem full_text semantic "entry:2"

hydrate_results_lem_example :
    (length (hydrate_results entry_rows conversation_rows full_text open_transaction).0
      ≡ count names_row full_text)
    × All IsWithinBudget (hydrate_results entry_rows conversation_rows full_text open_transaction).0
unfolding IsBare
hydrate_results_lem_example =
    hydrate_results_lem entry_rows conversation_rows full_text open_transaction
      ((refl, refl, refl), ((refl, refl, refl), tt))

ltb_asymmetric : (a b : ℕ) → ltb a b ≡ true → ltb b a ≡ false
ltb_asymmetric a b h = ground arith

build_payload_lem_example :
    (sorted : List (SearchResult ℕ)) × IsSorted ltb sorted
    × ((test : SearchResult ℕ → Bool) → count test sorted ≡ count test full_text)
    × ((build_payload ltb full_text "q" 1).results ≡ collect_items (take 1 sorted))
    × ((build_payload ltb full_text "q" 1).total
        ≡ length (build_payload ltb full_text "q" 1).results)
    × ((build_payload ltb full_text "q" 1).total ≤ 1)
build_payload_lem_example = build_payload_lem ltb ltb_asymmetric full_text "q" 1
