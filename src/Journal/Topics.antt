-- ===== src/Journal/Topics.antt =====
-- The topic repository, gubbi/storage/repositories/topics.py: the tables' side of it, and the reads.
use gubbi.Prelude.{
  ℕ, ◌+◌, ◌/◌, Bool, true, false, ◌&&◌, ◌||◌, not, Option, none, some, List, [], ◌∷◌, ◌==◌, nat_eq,
  list_eq, ltb, if◌then◌else◌, map, filter, any, length, count as count_by, page, sort_by,
}
use gubbi.Pg.{Conn}
use gubbi.Crypto.Utf8.{Text}
use gubbi.Validation.Topic.{validate_topic}
use gubbi.Journal.Like.{like, prefix_pattern}
use gubbi.Journal.Store.{
  Topic, Entry, Conversation, Tables, Error, Result, ok, err, unique_violation,
  foreign_key_violation, insufficient_privilege, topic_not_found, topic_already_exists, value_error,
  Exec, pure, raise, statement, fetch, of_option, catch, ◌>>=◌, ◌>>◌, owned, find_row, rewrite,
}
pub mod Mutations
pub mod Owned
pub mod Merge

-- topics_user_path_key.
unfoldable pub path_taken : Topic → List Topic → Bool
path_taken t [] = false
path_taken t (k ∷ ks) = k.user == t.user && k.path == t.path || path_taken t ks

unfoldable pub unique_paths : List Topic → Bool
unfolding path_taken
unique_paths [] = true
unique_paths (t ∷ ks) = not (path_taken t ks) && unique_paths ks

-- The foreign keys on topics: of every user's rows.
abbrev pub topic_exists : ℕ → List Topic → Bool
topic_exists i ts = any (λ k. k.ident == i) ts

abbrev pub topic_referenced : ℕ → Tables → Bool
topic_referenced i t =
    any (λ e. e.topic_id == i) t.entries || any (λ c. c.topic_id == i) t.conversations

abbrev pub is_live : Entry → Bool
is_live e = elim e.deleted_at [ none ↦ true | some _ ↦ false ]

-- What `$1` matches, under the row policy.
abbrev pub topic_at : Conn → Text → Topic → Bool
topic_at conn path k = owned conn.tenant k.user && k.path == path

abbrev pub topic_by_id : Conn → ℕ → Topic → Bool
topic_by_id conn i k = owned conn.tenant k.user && k.ident == i

-- TopicMeta of gubbi/models/journal.py; a day is 86400 seconds.
pub record TopicMeta : Type 0 where
  pub id : ℕ
  pub topic : Text
  pub title : Text
  pub description : Text
  pub created : ℕ
  pub updated : ℕ
  pub entry_count : ℕ

abbrev pub day_of : ℕ → ℕ
day_of time = time / 86400

abbrev pub row_to_topic_meta : Topic → ℕ → TopicMeta
row_to_topic_meta k entry_count = record {
  id = k.ident;
  topic = k.path;
  title = k.title;
  description = k.description;
  created = day_of k.created_at;
  updated = day_of k.updated_at;
  entry_count = entry_count;
}

-- `LEFT JOIN entries e ON e.topic_id = t.id AND e.deleted_at IS NULL`, counted.
abbrev pub entry_count_of : Conn → Tables → Topic → ℕ
entry_count_of conn t k =
    count_by (λ e. owned conn.tenant e.user && (e.topic_id == k.ident && is_live e)) t.entries

abbrev pub meta_of : Conn → Tables → Topic → TopicMeta
meta_of conn t k = row_to_topic_meta k (entry_count_of conn t k)

abbrev option_map : {A B : Type 0} → (A → B) → Option A → Option B
option_map f none = none
option_map f (some a) = some (f a)

-- `INSERT INTO topics ... RETURNING id`.
unfoldable pub insert_topic : Conn → Text → Text → Text → ℕ → Tables → Result (ℕ × Tables)
unfolding path_taken
insert_topic conn path title description created t = elim conn.tenant [
  | none ↦ err insufficient_privilege
  | some user ↦
      let row : Topic = record {
        ident = t.next_topic;
        user = user;
        path = path;
        title = title;
        description = description;
        created_at = created;
        updated_at = conn.now;
      } in
      if path_taken row t.topics
      then err unique_violation
      else ok (t.next_topic, record t { topics = row ∷ t.topics; next_topic = t.next_topic + 1 })
]

abbrev pub already_exists : {A : Type 0} → Error → Exec A
already_exists unique_violation = raise topic_already_exists
already_exists e = raise e

-- A prefix that is None or empty filters nothing.
abbrev pub like_pattern : (Text → Text) → Option Text → Exec (Option Text)
like_pattern lower none = pure none
like_pattern lower (some []) = pure none
like_pattern lower (some (c ∷ cs)) =
    of_option value_error (validate_topic lower (c ∷ cs)) >>= λ prefix.
    pure (some (prefix_pattern prefix))

abbrev pub path_matches : Option Text → Text → Bool
path_matches none path = true
path_matches (some pattern) path = like pattern path

abbrev pub listed : Conn → Option Text → Topic → Bool
listed conn pattern k = owned conn.tenant k.user && path_matches pattern k.path

-- `ORDER BY t.updated_at DESC, t.id DESC`.
abbrev pub later_topic : Topic → Topic → Bool
later_topic a b =
    ltb b.updated_at a.updated_at || a.updated_at == b.updated_at && ltb b.ident a.ident

-- `COUNT(*) OVER()` of the first row, which an empty page does not have.
abbrev pub total_or : {R : Type 0} → ℕ → Exec ℕ → List R → Exec ℕ
total_or total fallback [] = fallback
total_or total fallback (r ∷ rs) = pure total

-- `created_at or now`.
abbrev pub created_or : ℕ → Option ℕ → ℕ
created_or now none = now
created_or now (some time) = time

-- _LIST_ALL_SQL: the page, and the number of rows before LIMIT.
abbrev pub list_all_sql : Conn → Option Text → Option ℕ → ℕ → Tables → List TopicMeta × ℕ
list_all_sql conn pattern limit offset t =
    let rows = filter (listed conn pattern) t.topics in
    (map (meta_of conn t) (page limit offset (sort_by later_topic rows)), length rows)

module _ (lower : Text → Text) where
  unfoldable pub get_id : Conn → Text → Exec ℕ
  unfolding validate_topic
  get_id conn topic = do
    path ← of_option value_error (validate_topic lower topic)
    row ← fetch conn (λ t. find_row (topic_at conn path) t.topics)
    k ← of_option topic_not_found row
    pure k.ident

  unfoldable pub get : Conn → Text → Exec (Option TopicMeta)
  unfolding validate_topic
  get conn topic = do
    path ← of_option value_error (validate_topic lower topic)
    fetch conn (λ t. option_map (meta_of conn t) (find_row (topic_at conn path) t.topics))

  unfoldable pub create : Conn → Text → Text → Text → Option ℕ → Exec ℕ
  unfolding validate_topic insert_topic
  create conn topic title description created_at = do
    path ← of_option value_error (validate_topic lower topic)
    catch
        (statement conn (insert_topic conn path title description (created_or conn.now created_at)))
        already_exists

  unfoldable pub count : Conn → Option Text → Exec ℕ
  count conn prefix = do
    pattern ← like_pattern lower prefix
    fetch conn (λ t. count_by (listed conn pattern) t.topics)

  unfoldable pub list_all : Conn → Option Text → Option ℕ → ℕ → Exec (List TopicMeta × ℕ)
  unfolding count
  list_all conn prefix limit offset = do
    pattern ← like_pattern lower prefix
    answer ← fetch conn (list_all_sql conn pattern limit offset)
    total ← total_or answer.1 (count conn prefix) answer.0
    pure (answer.0, total)
