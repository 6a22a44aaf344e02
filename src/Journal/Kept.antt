-- ===== src/Journal/Kept.antt =====
-- The operations that leave the conversations' table alone.
use gubbi.Prelude.{ℕ, Bool, true, false, Option, none, some, List, [], ◌∷◌, arith}
use gubbi.Pg.{Conn}
use gubbi.Crypto.Utf8.{Bytes, Text}
use gubbi.Crypto.Cipher.{Aead, ContentCipher}
use gubbi.Journal.Store.{Conversation, Message, Sealed, Tables, Error, Exec}
use gubbi.Journal.Keeps.{
  Keeps, Writes, Keeps-pure, Keeps-of_option, Keeps-statement, Keeps-fetch, Keeps-catch,
  Keeps-require, Keeps-bind,
}
use gubbi.Journal.Topics.{
  get_id, create, insert_topic, already_exists, list_all, like_pattern, total_or, count,
}
use gubbi.Journal.Entries.{
  DateText, iso, other_form, malformed, from_isoformat, date_or_today, columns, encrypt_optional,
  append, append_cte, insert_entry,
}
use gubbi.Journal.Conversations.Read.{
  row_to_meta, message_from_row, message_views, read_conversation_by_id,
}
use gubbi.Journal.Conversations.Status.{get_processed_at}
use gubbi.Crypto.Cipher.{Encrypted, sealed, value_error as refused}

ruleset keeps_rules =
    (Keeps-bind, Keeps-pure, Keeps-of_option, Keeps-fetch, Keeps-require, Keeps-catch)

module _ (P : List Conversation → Type 0) where
  pub get_id-Keeps :
      (lower : Text → Text) (conn : Conn) (topic : Text) → Keeps P (get_id lower conn topic)
  unfolding get_id
  get_id-Keeps lower conn topic = search keeps_rules

  already_exists-Keeps : (e : Error) → Keeps P (already_exists {A = ℕ} e)
  already_exists-Keeps e s h = ground arith

  insert_topic-Writes :
      (conn : Conn) (path title description : Text) (created : ℕ) (t : Tables)
      → P t.conversations
      → Writes P (insert_topic conn path title description created t)
  unfolding insert_topic
  insert_topic-Writes conn path title description created t h = ground arith

  pub create-Keeps :
      (lower : Text → Text) (conn : Conn) (topic title description : Text) (created_at : Option ℕ)
      → Keeps P (create lower conn topic title description created_at)
  unfolding create
  create-Keeps lower conn topic title description created_at =
      search (keeps_rules, Keeps-statement, insert_topic-Writes, already_exists-Keeps)

  like_pattern-Keeps :
      (lower : Text → Text) (prefix : Option Text) → Keeps P (like_pattern lower prefix)
  like_pattern-Keeps lower none = search keeps_rules
  like_pattern-Keeps lower (some []) = search keeps_rules
  like_pattern-Keeps lower (some (c ∷ cs)) = search keeps_rules

  total_or-Keeps :
      {R : Type 0} (total : ℕ) (fallback : Exec ℕ) (rows : List R)
      → Keeps P fallback
      → Keeps P (total_or total fallback rows)
  total_or-Keeps total fallback [] k = k
  total_or-Keeps total fallback (r ∷ rs) k = search keeps_rules

  pub list_all-Keeps :
      (lower : Text → Text) (conn : Conn) (prefix : Option Text) (limit : Option ℕ) (offset : ℕ)
      → Keeps P (list_all lower conn prefix limit offset)
  unfolding list_all count
  list_all-Keeps lower conn prefix limit offset =
      search (keeps_rules, like_pattern-Keeps, total_or-Keeps) depth 20

  from_isoformat-Keeps : (d : DateText) → Keeps P (from_isoformat d)
  from_isoformat-Keeps (iso d) s h = h
  from_isoformat-Keeps (other_form d) s h = h
  from_isoformat-Keeps malformed s h = h

  date_or_today-Keeps : (conn : Conn) (d : Option DateText) → Keeps P (date_or_today conn d)
  date_or_today-Keeps conn none = search keeps_rules
  date_or_today-Keeps conn (some d) = from_isoformat-Keeps d

  columns-Keeps : (e : Encrypted) → Keeps P (columns e)
  columns-Keeps (sealed c n) s h = h
  columns-Keeps refused s h = h

  pub get_processed_at-Keeps : (conn : Conn) (i : ℕ) → Keeps P (get_processed_at conn i)
  unfolding get_processed_at
  get_processed_at-Keeps conn i = search keeps_rules

  module _ (aead : Aead) (cipher : ContentCipher) where
    encrypt_optional-Keeps :
        (drawn : Bytes) (t : Option Text) → Keeps P (encrypt_optional aead cipher drawn t)
    encrypt_optional-Keeps drawn none = search keeps_rules
    encrypt_optional-Keeps drawn (some t) = columns-Keeps _

    insert_entry-Writes :
        (conn : Conn) (topic date : ℕ) (tags : List Text) (content reasoning : Sealed)
        (search_text : Text) (t : Tables)
        → P t.conversations
        → Writes P (append_cte conn topic date tags content reasoning search_text t)
    unfolding insert_entry
    insert_entry-Writes conn topic date tags content reasoning search_text t h = ground arith

    pub append-Keeps :
        (lower : Text → Text) (conn : Conn) (drawn drawn' : Bytes) (topic content : Text)
        (reasoning : Option Text) (tags : List Text) (date : Option DateText)
        → Keeps P (append aead cipher lower conn drawn drawn' topic content reasoning tags date)
    unfolding append
    append-Keeps lower conn drawn drawn' topic content reasoning tags date =
        search
          (
            keeps_rules, get_id-Keeps, date_or_today-Keeps, columns-Keeps, encrypt_optional-Keeps,
            Keeps-statement, insert_entry-Writes,
          )
          depth 20

    row_to_meta-Keeps :
        (soft : Bool) (row : Conversation × Text) → Keeps P (row_to_meta aead cipher soft row)
    row_to_meta-Keeps true (c, path) = search keeps_rules
    row_to_meta-Keeps false (c, path) = search keeps_rules depth 20

    message_from_row-Keeps :
        (soft : Bool) (m : Message) → Keeps P (message_from_row aead cipher soft m)
    message_from_row-Keeps true m = search keeps_rules
    message_from_row-Keeps false m = search keeps_rules

    message_views-Keeps :
        (soft : Bool) (ms : List Message) → Keeps P (message_views aead cipher soft ms)
    unfolding message_views
    message_views-Keeps soft [] = search keeps_rules
    message_views-Keeps soft (m ∷ ms) =
        search (keeps_rules, message_from_row-Keeps, message_views-Keeps soft ms)

    pub read_conversation_by_id-Keeps :
        (conn : Conn) (i : ℕ) (preview : Bool)
        → Keeps P (read_conversation_by_id aead cipher conn i preview)
    unfolding read_conversation_by_id
    read_conversation_by_id-Keeps conn i preview =
        search (keeps_rules, row_to_meta-Keeps, message_views-Keeps) depth 20
