-- ===== src/Journal/Conversations/Save.antt =====
-- save_conversation of gubbi/storage/repositories/conversations.py, and its steps.
use gubbi.Prelude.{
  ℕ, ◌+◌, ◌*◌, Bool, ◌&&◌, Option, none, some, List, [], ◌∷◌, ◌++◌, nat_eq, list_eq, length,
  is_space, codes,
}
use gubbi.Pg.{Conn}
use gubbi.Crypto.Utf8.{Bytes, Text}
use gubbi.Crypto.Cipher.{Aead, ContentCipher, encrypt}
use gubbi.Validation.Topic.{validate_topic}
use gubbi.Validation.Title.{validate_title, slugify, strip_of, drop_while, rstrip}
use gubbi.Journal.Store.{
  Entry, Message, Sealed, value_error, assertion_error, Exec, pure, statement, fetch, execute,
  of_option, require, ◌>>=◌, ◌>>◌, owned, find_row, rewrite,
}
use gubbi.Journal.Topics.{get_id}
use gubbi.Journal.Topics.Mutations.{touch_topic}
use gubbi.Journal.Entries.{
  DateText, date_or_today, no_columns, encrypt_text, insert_entry, entry_by_id, tags_fit,
}
use gubbi.Journal.Conversations.{
  MessageText, parse_ts, participants_of, write_conversation_json, Proposed, conflicts, upsert_row,
  delete_messages, tenant_or, relink, linked_to, linked_text, SaveConversationResult, old_path,
  superseded,
}

module _ (aead : Aead) (cipher : ContentCipher) where
  -- _upsert_conversation_record, from the arguments that save_conversation passes.
  unfoldable pub upsert_conversation_record :
      Conn
      → (drawn drawn' : Bytes) → (topic_id : ℕ) → (title slug source summary : Text)
      → (tags : List Text) → List MessageText
      → (date : Option DateText) → (json_path : Text) → Exec (ℕ × Bool)
  unfolding encrypt upsert_row participants_of drop_while rstrip
  upsert_conversation_record conn drawn drawn' topic_id title slug source summary tags messages date
        json_path =
      do
        title_columns ← encrypt_text aead cipher drawn title
        summary_columns ← encrypt_text aead cipher drawn' summary
        created ← date_or_today conn date
        let proposed : Proposed = record {
          topic_id = topic_id;
          slug = slug;
          source = source;
          title = title_columns;
          summary = summary_columns;
          tags = tags;
          participants = participants_of messages;
          message_count = length messages;
          created_at = created * 86400;
          json_path = json_path;
          search_vector = strip_of is_space (title ++ (32 ∷ summary));
        }
        statement conn (upsert_row conn proposed)

  -- The rows of _insert_messages, encrypted in order: `drawn` gives the bytes by position.
  unfoldable pub message_rows :
      ℕ → (ℕ → Bytes) → ℕ → (position : ℕ) → List MessageText → Exec (List Message)
  unfolding encrypt
  message_rows user drawn conv_id position [] = pure []
  message_rows user drawn conv_id position (m ∷ ms) = do
    content ← encrypt_text aead cipher (drawn position) m.content
    let row : Message = record {
      conversation_id = conv_id;
      user = user;
      role = m.role;
      timestamp = parse_ts m.timestamp;
      position = position;
      content = content;
      search_vector = m.content;
    }
    rest ← message_rows user drawn conv_id (position + 1) ms
    pure (row ∷ rest)

  unfoldable pub insert_messages : Conn → (ℕ → Bytes) → ℕ → List MessageText → Exec (Unit {0})
  unfolding message_rows
  insert_messages conn drawn conv_id messages = do
    rows ← message_rows (tenant_or conn.tenant) drawn conv_id 0 messages
    execute conn (λ t. record t { messages = rows ++ t.messages })

  abbrev link : Conn → ℕ → ℕ → ℕ → Sealed → Text → Option Entry → Exec ℕ
  link conn topic_id conv_id date content plain none = statement conn (
      insert_entry conn topic_id (some conv_id) date (codes "conversation" ∷ []) content no_columns
        plain)
  link conn topic_id conv_id date content plain (some e) = do
    execute conn λ t. record t {
      entries = rewrite (entry_by_id conn e.ident) (relink conn.now date content plain) t.entries;
    }
    pure e.ident

  unfoldable pub upsert_linked_entry :
      Conn → Bytes → (topic_id conv_id : ℕ) → (title summary : Text) → Option DateText → Exec ℕ
  unfolding encrypt insert_entry
  upsert_linked_entry conn drawn topic_id conv_id title summary date = do
    content ← encrypt_text aead cipher drawn (linked_text title summary)
    day ← date_or_today conn date
    existing ← fetch conn (λ t. find_row (linked_to conn conv_id) t.entries)
    link conn topic_id conv_id day content (linked_text title summary) existing

  -- `drawn` gives the nonces: of the title, the summary, the linked entry, and the messages.
  unfoldable pub save_conversation :
      (Text → Text)
      → Conn
      → (disk_full : Bool) → (file_id : Text) → (drawn : ℕ → ℕ → Bytes) → (topic title : Text)
      → List MessageText
      → (summary source : Text) → (tags : List Text) → (date : Option DateText)
      → Exec SaveConversationResult
  unfolding validate_topic validate_title slugify get_id upsert_conversation_record insert_messages
      upsert_linked_entry
  save_conversation lower conn disk_full file_id drawn topic title messages summary source tags
        date =
      do
        require conn.in_transaction assertion_error
        path ← of_option value_error (validate_topic lower topic)
        name ← of_option value_error (validate_title title)
        topic_id ← get_id lower conn path
        existing ← fetch conn λ t.
            find_row (λ c. owned conn.tenant c.user && conflicts topic_id (slugify lower name) c)
              t.conversations
        require (tags_fit tags) value_error
        json_path ← write_conversation_json disk_full file_id
        saved ←
            upsert_conversation_record conn (drawn 0 0) (drawn 1 0) topic_id name
              (slugify lower name) source summary tags messages date json_path
        execute conn (delete_messages conn saved.0)
        insert_messages conn (drawn 3) saved.0 messages
        linked ← upsert_linked_entry conn (drawn 2 0) topic_id saved.0 name summary date
        execute conn (touch_topic conn topic_id)
        let result : SaveConversationResult = record {
          conversation_id = saved.0;
          summary = summary;
          is_update = saved.1;
          linked_entry_id = linked;
          superseded_json_path = superseded saved.1 (old_path existing) json_path;
        }
        pure result
