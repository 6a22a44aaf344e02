-- ===== src/Journal/Entries/Listing.antt =====
-- list_entries, get_entry_by_id and get_stats of gubbi/storage/repositories/entries.py.
use gubbi.Prelude.{
  ℕ, ◌+◌, Bool, true, false, ◌&&◌, Option, none, some, List, [], ◌∷◌, ◌==◌, nat_eq, list_eq,
  if◌then◌else◌, any, filter, length, count, contains, page, sort_by,
}
use gubbi.Pg.{Conn}
use gubbi.Crypto.Utf8.{Text}
use gubbi.Validation.Topic.{validate_topic}
use gubbi.Journal.Store.{
  Topic, Entry, Conversation, Tables, value_error, Exec, pure, raise, fetch, of_option, ◌>>=◌,
  owned, find_row,
}
use gubbi.Journal.Topics.{is_live, total_or}
use gubbi.Journal.Entries.{DateText, live_by_id}
use gubbi.Journal.Entries.Read.{validate_date, from_bound, to_bound, newer}

pub data Sort : Type 0 where
  newest oldest invalid_sort : Sort

-- A row of the joined tables; the ciphertext goes out as it is.
pub record ListedEntry : Type 0 where
  pub entry : Entry
  pub topic_path : Text

-- The WHERE clause. A filter that is None or empty is left out.
pub record EntryFilter : Type 0 where
  pub topic : Option Text
  pub from : Option ℕ
  pub to : Option ℕ
  pub tags : List Text
  pub source : Option Text

abbrev pub same_or_any : Option Text → Text → Bool
same_or_any none path = true
same_or_any (some wanted) path = path == wanted

-- `e.tags @> tags`.
abbrev pub has_all : List Text → List Text → Bool
has_all present [] = true
has_all present (g ∷ gs) = contains present g && has_all present gs

abbrev pub conversation_source : Conn → Tables → Option ℕ → Option Text
conversation_source conn t none = none
conversation_source conn t (some i) =
    elim (find_row (λ (c : Conversation). owned conn.tenant c.user && c.ident == i)
      t.conversations) [ none ↦ none | some c ↦ some c.source ]

-- `c.source = $n` on the LEFT JOIN: an entry without a conversation has no source.
abbrev pub source_is : Option Text → Option Text → Bool
source_is none source = true
source_is (some wanted) none = false
source_is (some wanted) (some source) = source == wanted

abbrev pub selected : Conn → Tables → EntryFilter → ListedEntry → Bool
selected conn t f r =
    is_live r.entry
    && (same_or_any f.topic r.topic_path
        && (from_bound f.from r.entry.date
            && (to_bound f.to r.entry.date
                && (has_all r.entry.tags f.tags
                    && source_is f.source (conversation_source conn t r.entry.conversation_id)))))

-- `JOIN topics t ON t.id = e.topic_id`, under the row policy.
abbrev pub joined_row : Entry → Option Topic → List ListedEntry → List ListedEntry
joined_row e none rows = rows
joined_row e (some k) rows = record { entry = e; topic_path = k.path } ∷ rows

unfoldable pub join_topics : Conn → Tables → List Entry → List ListedEntry
join_topics conn t [] = []
join_topics conn t (e ∷ es) =
    let rest = join_topics conn t es in
    if owned conn.tenant e.user
    then joined_row e
        (find_row (λ (k : Topic). owned conn.tenant k.user && k.ident == e.topic_id) t.topics) rest
    else rest

abbrev pub in_order : Sort → ListedEntry → ListedEntry → Bool
in_order newest a b = newer a.entry b.entry
in_order oldest a b = newer b.entry a.entry
in_order invalid_sort a b = newer a.entry b.entry

abbrev pub list_entries_sql :
    Conn → EntryFilter → Sort → Option ℕ → ℕ → Tables → List ListedEntry × ℕ
list_entries_sql conn f sort limit offset t =
    let rows = filter (selected conn t f) (join_topics conn t t.entries) in
    (page limit offset (sort_by (in_order sort) rows), length rows)

abbrev pub valid_sort : Sort → Exec Sort
valid_sort newest = pure newest
valid_sort oldest = pure oldest
valid_sort invalid_sort = raise value_error

abbrev pub topic_filter : (Text → Text) → Option Text → Exec (Option Text)
topic_filter lower none = pure none
topic_filter lower (some []) = pure none
topic_filter lower (some (c ∷ cs)) =
    of_option value_error (validate_topic lower (c ∷ cs)) >>= λ path. pure (some path)

abbrev pub nonempty : Option Text → Option Text
nonempty none = none
nonempty (some []) = none
nonempty (some (c ∷ cs)) = some (c ∷ cs)

unfoldable pub list_entries :
    (Text → Text)
    → Conn
    → (topic : Option Text) → (date_from date_to : Option DateText) → (tags : List Text)
    → (source : Option Text) → Sort
    → (limit : Option ℕ) → (offset : ℕ) → Exec (List ListedEntry × ℕ)
unfolding validate_topic join_topics
list_entries lower conn topic date_from date_to tags source sort limit offset = do
  from ← validate_date date_from
  to ← validate_date date_to
  order ← valid_sort sort
  path ← topic_filter lower topic
  let f : EntryFilter = record {
    topic = path;
    from = from;
    to = to;
    tags = tags;
    source = nonempty source;
  }
  answer ← fetch conn (list_entries_sql conn f order limit offset)
  total ←
      total_or answer.1 (fetch conn (λ t. count (selected conn t f) (join_topics conn t t.entries)))
        answer.0
  let page : List ListedEntry × ℕ = (answer.0, total)
  pure page

abbrev pub listed_entry : Conn → Tables → Option Entry → Option ListedEntry
listed_entry conn t none = none
listed_entry conn t (some e) =
    elim (find_row (λ (k : Topic). owned conn.tenant k.user && k.ident == e.topic_id) t.topics) [
      | none ↦ none
      | some k ↦ some (record { entry = e; topic_path = k.path })
    ]

unfoldable pub get_entry_by_id : Conn → ℕ → Exec (Option ListedEntry)
get_entry_by_id conn entry_id =
    fetch conn (λ t. listed_entry conn t (find_row (live_by_id conn entry_id) t.entries))

pub record Stats : Type 0 where
  pub total_documents : ℕ
  pub conversations : ℕ
  pub topics : ℕ

-- The topics that hold a live entry.
abbrev pub in_use : Conn → Tables → Topic → Bool
in_use conn t k =
    owned conn.tenant k.user
    && any (λ e. owned conn.tenant e.user && (e.topic_id == k.ident && is_live e)) t.entries

abbrev pub stats_of : Conn → Tables → Stats
stats_of conn t =
    let entries = count (λ (e : Entry). owned conn.tenant e.user && is_live e) t.entries in
    let conversations = count (λ (c : Conversation). owned conn.tenant c.user) t.conversations in
    record {
      total_documents = entries + conversations;
      conversations = conversations;
      topics = count (in_use conn t) t.topics;
    }

unfoldable pub get_stats : Conn → Exec Stats
get_stats conn = fetch conn (stats_of conn)
