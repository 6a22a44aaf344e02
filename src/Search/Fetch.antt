-- ===== src/Search/Fetch.antt =====
-- The batched reads of a search: get_texts of gubbi/storage/repositories/entries.py and
-- get_titles_summaries of gubbi/storage/repositories/conversations.py.
use gubbi.Prelude.{
  ℕ, ◌≡◌, Bool, true, false, Option, none, some, List, [], ◌∷◌, ◌==◌, string_eq, nat_eq, list_eq,
  if◌then◌else◌, refl,
}
use gubbi.Search.Result.{Text, repo_failed_sentinel}

-- The connection. Where it is in a transaction, a statement that fails aborts the transaction, and
-- PostgreSQL refuses every later statement with an error.
pub record Session : Type 0 where
  pub in_transaction : Bool
  pub aborted : Bool

abbrev pub autocommit : Session
autocommit = record { in_transaction = false; aborted = false }

abbrev pub open_transaction : Session
open_transaction = record { in_transaction = true; aborted = false }

abbrev pub aborted_transaction : Session
aborted_transaction = record { in_transaction = true; aborted = true }

-- A fetch, by what the statement answers on a healthy connection; `none` is a PostgresError.
abbrev settle : {A : Type 0} → Option A → Session → Option A × Session
settle none s = (none, record s { aborted = s.in_transaction })
settle (some a) s = (some a, s)

unfoldable pub fetch : {A : Type 0} → Option A → Session → Option A × Session
fetch answer s = if s.aborted then (none, s) else settle answer s

-- A fetched entry, with what its decryption gives: `none` is a DecryptionError.
pub record EntryRow : Type 0 where
  pub id : ℕ
  pub opened : Option (Text × Option Text)

-- A fetched conversation: title and summary, each of which may be missing.
pub record ConversationRow : Type 0 where
  pub id : ℕ
  pub opened : Option (Option Text × Option Text)

-- The dicts that get_texts and get_titles_summaries build, as functions: a later row wins.
abbrev latest : {A : Type 0} → Option A → Option A → Option A
latest none earlier = earlier
latest (some a) earlier = some a

abbrev entry_value : Option (Text × Option Text) → Option (Text × Option Text)
entry_value none = some (repo_failed_sentinel, none)
entry_value (some v) = some v

unfoldable pub texts_dict : List EntryRow → ℕ → Option (Text × Option Text)
texts_dict [] i = none
texts_dict (r ∷ rs) i = latest (texts_dict rs i) (if r.id == i then entry_value r.opened else none)

abbrev conversation_value : Option (Option Text × Option Text) → Option (Text × Text)
conversation_value none = none
conversation_value (some (none, summary)) = none
conversation_value (some (some title, none)) = none
conversation_value (some (some title, some summary)) = some (title, summary)

unfoldable pub titles_dict : List ConversationRow → ℕ → Option (Text × Text)
titles_dict [] i = none
titles_dict (r ∷ rs) i =
    latest (titles_dict rs i) (if r.id == i then conversation_value r.opened else none)

abbrev option_map : {A B : Type 0} → (A → B) → Option A → Option B
option_map f none = none
option_map f (some a) = some (f a)

-- No statement is sent for an empty list of identifiers.
unfoldable pub get_texts :
    (List ℕ → Option (List EntryRow))
    → List ℕ
    → Session
    → Option (ℕ → Option (Text × Option Text)) × Session
unfolding texts_dict fetch
get_texts rows [] s = (some (λ i. none), s)
get_texts rows (i ∷ ids) s =
    let (answer, s') = fetch (rows (i ∷ ids)) s in (option_map texts_dict answer, s')

unfoldable pub get_titles_summaries :
    (List ℕ → Option (List ConversationRow))
    → List ℕ
    → Session
    → Option (ℕ → Option (Text × Text)) × Session
unfolding titles_dict fetch
get_titles_summaries rows [] s = (some (λ i. none), s)
get_titles_summaries rows (i ∷ ids) s =
    let (answer, s') = fetch (rows (i ∷ ids)) s in (option_map titles_dict answer, s')

-- A batch's value for an identifier: nothing where the batch failed.
abbrev pub batch_get : {A : Type 0} → Option (ℕ → Option A) → ℕ → Option A
batch_get none i = none
batch_get (some d) i = d i

pub get_texts-aborted :
    (rows : List ℕ → Option (List EntryRow)) (ids : List ℕ)
    → ((get_texts rows ids aborted_transaction).1 ≡ aborted_transaction)
      × ((i : ℕ) → batch_get (get_texts rows ids aborted_transaction).0 i ≡ none)
unfolding get_texts fetch
get_texts-aborted rows [] = (refl, λ i. refl)
get_texts-aborted rows (j ∷ ids) = (refl, λ i. refl)

pub get_titles_summaries-aborted :
    (rows : List ℕ → Option (List ConversationRow)) (ids : List ℕ) (i : ℕ)
    → batch_get (get_titles_summaries rows ids aborted_transaction).0 i ≡ none
unfolding get_titles_summaries fetch
get_titles_summaries-aborted rows [] i = refl
get_titles_summaries-aborted rows (j ∷ ids) i = refl
