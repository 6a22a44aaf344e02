-- ===== src/Search/Result.antt =====
-- The search results of gubbi/models/search.py and the texts cut to size, gubbi/services/search.py.
-- Ranks are Python floats: their type, order and negation are parameters. A text that is cut is a list
-- of characters.
use gubbi.Prelude.{
  ℕ, ◌+◌, ◌-◌, String, Bool, Option, none, some, List, [], string_eq, nat_eq, list_eq, leb,
  if◌then◌else◌, length, take, codes, ◌≤◌, arith, length-take,
}

abbrev pub Text : Type 0
Text = List ℕ

pub data DocType : Type 0 where
  entry conversation memory : DocType

pub record SearchResult (R : Type 0) : Type 0 where
  pub source_key : String
  pub doc_type : DocType
  pub topic : String
  pub rank : R
  pub date : String
  pub entry_id : Option ℕ
  pub conversation_id : Option ℕ
  pub content : Option Text
  pub title : Option Text
  pub summary : Option Text
  pub decryption_failed : Bool

abbrev pub max_content_chars : ℕ
max_content_chars = 4096

abbrev pub repo_failed_sentinel : Text
repo_failed_sentinel = codes "[decryption-failed]"

abbrev pub failed_sentinel : Text
failed_sentinel = codes "[decryption failed]"

unfoldable pub truncate_text : Text → Text
truncate_text value = take max_content_chars value

-- What fits of a title and a summary: a long title leaves the summary nothing.
unfoldable pub share_budget : ℕ → Text → Text → Text × Text
share_budget budget title summary =
    if leb (length title + length summary) budget
    then (title, summary)
    else if leb budget (length title)
    then (take budget title, [])
    else (title, take (budget - length title) summary)

unfoldable pub truncate_title_summary : Text → Text → Text × Text
unfolding share_budget
truncate_title_summary = share_budget max_content_chars

-- `text or ""`.
abbrev pub or_empty : Option Text → Text
or_empty none = []
or_empty (some t) = t

length-share_budget :
    (budget : ℕ) (title summary : Text)
    → length (share_budget budget title summary).0 + length (share_budget budget title summary).1
      ≤ budget
unfolding share_budget
length-share_budget budget title summary =
    ground (arith, length-take budget title, length-take (budget - length title) summary)

pub length-truncate_title_summary :
    (title summary : Text)
    → length (truncate_title_summary title summary).0
        + length (truncate_title_summary title summary).1
      ≤ max_content_chars
unfolding truncate_title_summary
length-truncate_title_summary = length-share_budget max_content_chars

pub length-truncate_text : (t : Text) → length (truncate_text t) ≤ max_content_chars
unfolding truncate_text
length-truncate_text t = omega (arith, length-take max_content_chars t)
