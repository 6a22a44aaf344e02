-- ===== src/Journal/Topics/Mutations.antt =====
-- The mutations of gubbi/storage/repositories/topics.py. record_audit is the audit package's: a
-- parameter.
use gubbi.Prelude.{
  ℕ, Bool, true, false, ◌&&◌, ◌||◌, not, Option, none, some, List, [], ◌∷◌, ◌==◌, nat_eq, list_eq,
  if◌then◌else◌, any, filter, count as count_by, String,
}
use gubbi.Pg.{Conn}
use gubbi.Crypto.Utf8.{Text}
use gubbi.Validation.Topic.{validate_topic}
use gubbi.Validation.Title.{validate_title}
use gubbi.Journal.Store.{
  Topic, Entry, Conversation, Tables, Audit, Action, Value, text, number, topic_renamed,
  topic_deleted, topic_merged, entry_moved, Error, Result, ok, err, unique_violation,
  foreign_key_violation, topic_not_found, topic_merge_conflict, value_error, Exec, pure, raise,
  statement, fetch, execute, of_option, require, catch, ◌>>=◌, ◌>>◌, owned, find_row, rewrite,
}
use gubbi.Journal.Topics.{
  TopicMeta, unique_paths, topic_exists, topic_referenced, topic_by_id, row_to_topic_meta,
  already_exists,
}

pub record MoveCounts : Type 0 where
  pub entries : ℕ
  pub conversations : ℕ

-- conversations_topic_id_slug_key.
unfoldable pub slug_taken : Conversation → List Conversation → Bool
slug_taken c [] = false
slug_taken c (k ∷ ks) = k.topic_id == c.topic_id && k.slug == c.slug || slug_taken c ks

unfoldable pub unique_slugs : List Conversation → Bool
unfolding slug_taken
unique_slugs [] = true
unique_slugs (c ∷ ks) = not (slug_taken c ks) && unique_slugs ks

abbrev pub under : Option ℕ → ℕ → ℕ → ℕ → Bool
under tenant topic user topic_id = owned tenant user && topic_id == topic

abbrev pub entry_under : Conn → ℕ → Entry → Bool
entry_under conn i e = under conn.tenant i e.user e.topic_id

abbrev pub conversation_under : Conn → ℕ → Conversation → Bool
conversation_under conn i c = under conn.tenant i c.user c.topic_id

unfoldable pub require_path : Conn → ℕ → Exec Text
require_path conn topic_id = do
  row ← fetch conn (λ t. find_row (topic_by_id conn topic_id) t.topics)
  k ← of_option topic_not_found row
  pure k.path

unfoldable pub move_counts : Conn → ℕ → Exec MoveCounts
move_counts conn topic_id = do
  entries ← fetch conn (λ t. count_by (entry_under conn topic_id) t.entries)
  conversations ← fetch conn (λ t. count_by (conversation_under conn topic_id) t.conversations)
  pure (record { entries = entries; conversations = conversations })

abbrev pub move_conversation : Conn → ℕ → Conversation → Conversation
move_conversation conn dest c = record c { topic_id = dest; updated_at = conn.now }

abbrev pub move_entry : Conn → ℕ → Entry → Entry
move_entry conn dest e = record e { topic_id = dest; updated_at = conn.now }

-- An UPDATE of topic_id that finds no row breaks no constraint.
abbrev pub known_topic : ℕ → ℕ → Tables → Bool
known_topic moved dest t = moved == 0 || topic_exists dest t.topics

unfoldable pub move_conversations : Conn → ℕ → ℕ → Tables → Result (ℕ × Tables)
unfolding unique_slugs
move_conversations conn source dest t =
    let moved = count_by (conversation_under conn source) t.conversations in
    let rows =
      rewrite (conversation_under conn source) (move_conversation conn dest) t.conversations in
    if not (unique_slugs rows)
    then err unique_violation
    else if known_topic moved dest t
    then ok (moved, record t { conversations = rows })
    else err foreign_key_violation

unfoldable pub move_entries : Conn → ℕ → ℕ → Tables → Result (ℕ × Tables)
move_entries conn source dest t =
    let moved = count_by (entry_under conn source) t.entries in
    if known_topic moved dest t
    then ok (
      moved,
      record t { entries = rewrite (entry_under conn source) (move_entry conn dest) t.entries },
    )
    else err foreign_key_violation

abbrev pub merge_conflict : Error → Exec ℕ
merge_conflict unique_violation = raise topic_merge_conflict
merge_conflict e = raise e

unfoldable pub reassign_rows : Conn → ℕ → ℕ → Exec MoveCounts
unfolding move_conversations move_entries
reassign_rows conn source dest = do
  conversations ← catch (statement conn (move_conversations conn source dest)) merge_conflict
  entries ← statement conn (move_entries conn source dest)
  pure (record { entries = entries; conversations = conversations })

-- `DELETE FROM topics WHERE id = $1`, with ON DELETE RESTRICT.
unfoldable pub delete_topic : Conn → ℕ → Tables → Result (Unit {0} × Tables)
delete_topic conn i t =
    if any (topic_by_id conn i) t.topics && topic_referenced i t
    then err foreign_key_violation
    else ok (tt, record t { topics = filter (λ k. not (topic_by_id conn i k)) t.topics })

abbrev pub touch_topic : Conn → ℕ → Tables → Tables
touch_topic conn i t = record t {
  topics = rewrite (topic_by_id conn i) (λ k. record k { updated_at = conn.now }) t.topics;
}

-- `UPDATE topics SET path = $1[, title = $2] ... RETURNING ...`, with the row that it changed.
abbrev pub new_title_of : Option Text → Text → Text
new_title_of none title = title
new_title_of (some new_title) title = new_title

abbrev pub renamed : Conn → Text → Option Text → Topic → Topic
renamed conn path title k = record k {
  path = path;
  title = new_title_of title k.title;
  updated_at = conn.now;
}

unfoldable pub rename_topic :
    Conn → ℕ → Text → Option Text → Tables → Result (Option Topic × Tables)
unfolding unique_paths
rename_topic conn i path title t =
    let rows = rewrite (topic_by_id conn i) (renamed conn path title) t.topics in
    if unique_paths rows
    then ok (find_row (topic_by_id conn i) rows, record t { topics = rows })
    else err unique_violation

abbrev pub checked_title : Option Text → Exec (Option Text)
checked_title none = pure none
checked_title (some title) =
    of_option value_error (validate_title title) >>= λ checked. pure (some checked)

abbrev pub moved_metadata : Text → Text → MoveCounts → List (String × Value)
moved_metadata source_path dest_path moved =
    ("source_path", text source_path)
    ∷ ("dest_path", text dest_path)
    ∷ ("entries_moved", number moved.entries)
    ∷ ("conversations_moved", number moved.conversations)
    ∷ []

abbrev pub deleted_metadata : Text → List (String × Value)
deleted_metadata source_path =
    ("source_path", text source_path)
    ∷ ("entries_moved", number 0)
    ∷ ("conversations_moved", number 0)
    ∷ []

abbrev pub topic_audit : ℕ → Action → ℕ → List (String × Value) → Audit
topic_audit actor action topic metadata = record {
  actor = actor;
  action = action;
  target = topic;
  metadata = metadata;
}

module _ (record_audit : Conn → Audit → Exec (Unit {0})) where
  unfoldable pub rename :
      (Text → Text) → Conn → ℕ → Text → Option Text → (actor : ℕ) → Exec TopicMeta
  unfolding validate_topic rename_topic require_path
  rename lower conn topic_id new_path new_title actor = do
    path ← of_option value_error (validate_topic lower new_path)
    old_path ← require_path conn topic_id
    title ← checked_title new_title
    row ← catch (statement conn (rename_topic conn topic_id path title)) already_exists
    k ← of_option topic_not_found row
    record_audit conn (
        topic_audit actor topic_renamed topic_id
          (("old_path", text old_path) ∷ ("new_path", text path) ∷ []))
    pure (row_to_topic_meta k 0)

  -- The topic is empty.
  unfoldable pub delete_empty : Conn → ℕ → Text → (actor : ℕ) → Exec MoveCounts
  unfolding delete_topic
  delete_empty conn topic_id source_path actor = do
    statement conn (delete_topic conn topic_id)
    record_audit conn (topic_audit actor topic_deleted topic_id (deleted_metadata source_path))
    pure (record { entries = 0; conversations = 0 })

  unfoldable pub delete_moving : Conn → ℕ → Text → Option ℕ → (actor : ℕ) → Exec MoveCounts
  unfolding delete_topic require_path reassign_rows
  delete_moving conn topic_id source_path none actor = raise value_error
  delete_moving conn topic_id source_path (some dest) actor = do
    require (not (dest == topic_id)) value_error
    dest_path ← require_path conn dest
    moved ← reassign_rows conn topic_id dest
    statement conn (delete_topic conn topic_id)
    execute conn (touch_topic conn dest)
    record_audit conn
        (topic_audit actor entry_moved dest (moved_metadata source_path dest_path moved))
    record_audit conn
        (topic_audit actor topic_deleted topic_id (moved_metadata source_path dest_path moved))
    pure moved

  abbrev pub delete_counted :
      Conn → ℕ → Text → Option ℕ → (actor : ℕ) → (empty : Bool) → Exec MoveCounts
  delete_counted conn topic_id source_path move_entries_to actor true =
      delete_empty conn topic_id source_path actor
  delete_counted conn topic_id source_path move_entries_to actor false =
      delete_moving conn topic_id source_path move_entries_to actor

  unfoldable pub delete_with_reassign : Conn → ℕ → Option ℕ → (actor : ℕ) → Exec MoveCounts
  unfolding require_path move_counts delete_empty delete_moving
  delete_with_reassign conn topic_id move_entries_to actor = do
    source_path ← require_path conn topic_id
    counts ← move_counts conn topic_id
    delete_counted conn topic_id source_path move_entries_to actor
        (counts.entries == 0 && counts.conversations == 0)

  unfoldable pub merge : Conn → (source into : ℕ) → (actor : ℕ) → Exec MoveCounts
  unfolding delete_topic require_path reassign_rows
  merge conn source into actor = do
    require (not (source == into)) value_error
    source_path ← require_path conn source
    dest_path ← require_path conn into
    moved ← reassign_rows conn source into
    statement conn (delete_topic conn source)
    execute conn (touch_topic conn into)
    record_audit conn
        (topic_audit actor topic_merged into (moved_metadata source_path dest_path moved))
    pure moved
