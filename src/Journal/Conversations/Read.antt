-- ===== src/Journal/Conversations/Read.antt =====
-- The reads of gubbi/storage/repositories/conversations.py.
use gubbi.Prelude.{
  ℕ, ◌-◌, Bool, true, false, ◌&&◌, ◌||◌, Option, none, some, List, [], ◌∷◌, ◌++◌, ◌==◌, nat_eq,
  list_eq, ltb, if◌then◌else◌, filter, length, count, take, drop, page, sort_by, codes,
}
use gubbi.Pg.{Conn}
use gubbi.Crypto.Utf8.{Text}
use gubbi.Crypto.Cipher.{Aead, ContentCipher, decrypt_content_field}
use gubbi.Validation.Topic.{validate_topic}
use gubbi.Validation.Title.{slugify}
use gubbi.Journal.Like.{like}
use gubbi.Journal.Store.{
  Topic, Conversation, Message, Sealed, Tables, conversation_not_found, value_error, runtime_error,
  assertion_error, decryption_error, Exec, pure, fetch, of_option, require, ◌>>=◌, ◌>>◌, owned,
  find_row,
}
use gubbi.Journal.Topics.{like_pattern, path_matches, day_of, total_or}
use gubbi.Journal.Conversations.{conversation_by_id}
use gubbi.Journal.Entries.{tags_fit}

-- ConversationMeta of gubbi/models/conversation.py.
pub record ConversationMeta : Type 0 where
  pub id : ℕ
  pub source : Text
  pub title : Text
  pub topic : Text
  pub tags : List Text
  pub created : ℕ
  pub updated : ℕ
  pub summary : Text
  pub participants : List Text
  pub message_count : ℕ
  pub decryption_failed : Bool

pub record MessageView : Type 0 where
  pub role : Text
  pub content : Text
  pub timestamp : Option ℕ
  pub decryption_failed : Bool

abbrev pub failed_sentinel : Text
failed_sentinel = codes "[decryption failed]"

-- `JOIN topics t ON t.id = c.topic_id`, under the row policy.
abbrev pub topic_of : Conn → Tables → Conversation → Option Topic
topic_of conn t c =
    find_row (λ (k : Topic). owned conn.tenant k.user && k.ident == c.topic_id) t.topics

abbrev pub with_topic : Conversation → Option Topic → Option (Conversation × Text)
with_topic c none = none
with_topic c (some k) = some (c, k.path)

abbrev pub found_with_topic : Conn → Tables → Option Conversation → Option (Conversation × Text)
found_with_topic conn t none = none
found_with_topic conn t (some c) = with_topic c (topic_of conn t c)

abbrev pub add_row :
    Bool → Option (Conversation × Text) → List (Conversation × Text) → List (Conversation × Text)
add_row keep none rest = rest
add_row keep (some row) rest = if keep then row ∷ rest else rest

unfoldable pub join_rows : Conn → Tables → List Conversation → List (Conversation × Text)
join_rows conn t [] = []
join_rows conn t (c ∷ cs) =
    add_row (owned conn.tenant c.user) (found_with_topic conn t (some c)) (join_rows conn t cs)

-- `ORDER BY c.created_at DESC, c.id DESC`.
abbrev pub created_later : Conversation × Text → Conversation × Text → Bool
created_later (a, p) (b, q) =
    ltb b.created_at a.created_at || a.created_at == b.created_at && ltb b.ident a.ident

abbrev pub row_listed : Option Text → Conversation × Text → Bool
row_listed pattern (c, path) = path_matches pattern path

abbrev pub list_conversations_sql :
    Conn → Option Text → Option ℕ → ℕ → Tables → List (Conversation × Text) × ℕ
list_conversations_sql conn pattern limit offset t =
    let rows = filter (row_listed pattern) (join_rows conn t t.conversations) in
    (page limit offset (sort_by created_later rows), length rows)

unfoldable pub count_conversations : (Text → Text) → Conn → Option Text → Exec ℕ
unfolding validate_topic like join_rows
count_conversations lower conn prefix = like_pattern lower prefix >>= λ pattern.
    fetch conn (λ t. count (row_listed pattern) (join_rows conn t t.conversations))

-- `ORDER BY position ASC`.
abbrev pub by_position : Message → Message → Bool
by_position a b = ltb a.position b.position

abbrev pub message_of : Conn → ℕ → Message → Bool
message_of conn i m = owned conn.tenant m.user && m.conversation_id == i

abbrev pub messages_sql : Conn → ℕ → Option ℕ → ℕ → Tables → List Message
messages_sql conn i limit offset t =
    page limit offset (sort_by by_position (filter (message_of conn i) t.messages))

-- `messages[:3] + messages[-3:]`, of more than six.
unfoldable pub previewed : {A : Type 0} → (preview : Bool) → List A → List A
previewed preview xs =
    if preview && ltb 6 (length xs) then take 3 xs ++ drop (length xs - 3) xs else xs

abbrev pub make_meta : Conversation → Text → Text → Text → Bool → Exec ConversationMeta
make_meta c path title summary failed = do
  require (tags_fit c.tags) value_error
  let meta : ConversationMeta = record {
    id = c.ident;
    source = c.source;
    title = title;
    topic = path;
    tags = c.tags;
    created = day_of c.created_at;
    updated = day_of c.updated_at;
    summary = summary;
    participants = c.participants;
    message_count = c.message_count;
    decryption_failed = failed;
  }
  pure meta

abbrev pub make_message : Message → Text → Bool → MessageView
make_message m content failed = record {
  role = m.role;
  content = content;
  timestamp = m.timestamp;
  decryption_failed = failed;
}

abbrev pub or_empty : Option Text → Text
or_empty none = []
or_empty (some t) = t

-- _decrypt_field_soft, from what decrypt_content_field gives.
abbrev pub soft : Option (Option Text) → Text × Bool
soft none = (failed_sentinel, true)
soft (some value) = (or_empty value, false)

-- A message must have both columns: an empty pair is a DecryptionError too.
abbrev pub both_present : Option (Option Text) → Option Text
both_present none = none
both_present (some none) = none
both_present (some (some t)) = some t

abbrev pub soft_content : Option Text → Text × Bool
soft_content none = (failed_sentinel, true)
soft_content (some t) = (t, false)

abbrev pub slug_at : Text → Text → Conversation × Text → Bool
slug_at path slug (c, p) = p == path && c.slug == slug

abbrev pub row_by_id : Conn → ℕ → Exec (Conversation × Text)
row_by_id conn i =
    fetch conn (λ t. found_with_topic conn t (find_row (conversation_by_id conn i) t.conversations))
    >>= of_option conversation_not_found

module _ (aead : Aead) (cipher : ContentCipher) where
  abbrev pub field_of : Sealed → Option (Option Text)
  field_of f = decrypt_content_field aead cipher f.ciphertext f.nonce

  abbrev pub row_to_meta : (soft_fail : Bool) → Conversation × Text → Exec ConversationMeta
  row_to_meta true (c, path) =
      let title = soft (field_of c.title) in
      let summary = soft (field_of c.summary) in
      make_meta c path title.0 summary.0 (title.1 || summary.1)
  row_to_meta false (c, path) = do
    title ← of_option decryption_error (field_of c.title)
    summary ← of_option decryption_error (field_of c.summary)
    title_text ← of_option runtime_error title
    summary_text ← of_option runtime_error summary
    make_meta c path title_text summary_text false

  abbrev pub message_from_row : (soft_fail : Bool) → Message → Exec MessageView
  message_from_row true m =
      let content = soft_content (both_present (field_of m.content)) in
      pure (make_message m content.0 content.1)
  message_from_row false m =
      of_option decryption_error (both_present (field_of m.content)) >>= λ content.
      pure (make_message m content false)

  unfoldable pub metas :
      (soft_fail : Bool) → List (Conversation × Text) → Exec (List ConversationMeta)
  unfolding decrypt_content_field
  metas soft_fail [] = pure []
  metas soft_fail (r ∷ rs) = do
    meta ← row_to_meta soft_fail r
    rest ← metas soft_fail rs
    pure (meta ∷ rest)

  unfoldable pub message_views : (soft_fail : Bool) → List Message → Exec (List MessageView)
  unfolding decrypt_content_field
  message_views soft_fail [] = pure []
  message_views soft_fail (m ∷ ms) = do
    view ← message_from_row soft_fail m
    rest ← message_views soft_fail ms
    pure (view ∷ rest)

  unfoldable pub list_conversations :
      (Text → Text)
      → Conn
      → (prefix : Option Text) → (limit : Option ℕ) → (offset : ℕ) → (soft_fail : Bool)
      → Exec (List ConversationMeta × ℕ)
  unfolding validate_topic like join_rows metas count_conversations
  list_conversations lower conn prefix limit offset soft_fail = do
    pattern ← like_pattern lower prefix
    answer ← fetch conn (list_conversations_sql conn pattern limit offset)
    total ← total_or answer.1 (count_conversations lower conn prefix) answer.0
    rows ← metas soft_fail answer.0
    let result : List ConversationMeta × ℕ = (rows, total)
    pure result

  unfoldable pub get_conversation :
      (Text → Text) → Conn → (topic title : Text) → Exec (ConversationMeta × List MessageView)
  unfolding validate_topic slugify join_rows message_views decrypt_content_field
  get_conversation lower conn topic title = do
    require conn.in_transaction assertion_error
    path ← of_option value_error (validate_topic lower topic)
    row ←
        fetch conn
          λ t. find_row (slug_at path (slugify lower title)) (join_rows conn t t.conversations)
    found ← of_option conversation_not_found row
    meta ← row_to_meta false found
    rows ← fetch conn (messages_sql conn (found.0).ident none 0)
    views ← message_views false rows
    let result : ConversationMeta × List MessageView = (meta, views)
    pure result

  unfoldable pub read_conversation_by_id :
      Conn → ℕ → (preview : Bool) → Exec (ConversationMeta × (List MessageView × ℕ))
  unfolding message_views previewed decrypt_content_field
  read_conversation_by_id conn i preview = do
    require conn.in_transaction assertion_error
    found ← row_by_id conn i
    meta ← row_to_meta false found
    rows ← fetch conn (messages_sql conn i none 0)
    views ← message_views false rows
    let result : ConversationMeta × (List MessageView × ℕ) =
        (meta, (previewed preview views, (found.0).message_count))
    pure result

  unfoldable pub read_conversation_by_id_paginated :
      Conn
      → ℕ
      → (messages_limit messages_offset : ℕ) → (soft_fail : Bool)
      → Exec (ConversationMeta × (List MessageView × ℕ))
  unfolding message_views decrypt_content_field
  read_conversation_by_id_paginated conn i messages_limit messages_offset soft_fail = do
    require conn.in_transaction assertion_error
    found ← row_by_id conn i
    meta ← row_to_meta soft_fail found
    rows ← fetch conn (messages_sql conn i (some messages_limit) messages_offset)
    views ← message_views soft_fail rows
    let result : ConversationMeta × (List MessageView × ℕ) =
        (meta, (views, (found.0).message_count))
    pure result

  abbrev pub title_summary : Option Conversation → Exec (Option (Text × Text))
  title_summary none = pure none
  title_summary (some c) = do
    title ← of_option decryption_error (field_of c.title)
    summary ← of_option decryption_error (field_of c.summary)
    title_text ← of_option runtime_error title
    summary_text ← of_option runtime_error summary
    let pair : Text × Text = (title_text, summary_text)
    pure (some pair)

  unfoldable pub get_title_summary : Conn → ℕ → Exec (Option (Text × Text))
  unfolding decrypt_content_field
  get_title_summary conn i =
      fetch conn (λ t. find_row (conversation_by_id conn i) t.conversations) >>= title_summary
