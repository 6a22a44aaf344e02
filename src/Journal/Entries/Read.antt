-- ===== src/Journal/Entries/Read.antt =====
-- The reads of gubbi/storage/repositories/entries.py: read, list_entries, get_entry_by_id, get_text,
-- get_texts, get_stats.
use gubbi.Prelude.{
  ℕ, Bool, true, ◌&&◌, ◌||◌, Option, none, some, List, [], ◌∷◌, ◌==◌, nat_eq, list_eq, ltb, leb,
  if◌then◌else◌, filter, length, count, page, sort_by, codes,
}
use gubbi.Pg.{Conn}
use gubbi.Crypto.Utf8.{Text}
use gubbi.Crypto.Cipher.{Aead, ContentCipher, decrypt_content_field}
use gubbi.Journal.Store.{
  Entry, Sealed, Tables, topic_not_found, value_error, assertion_error, Exec, pure, raise, fetch,
  of_option, require, ◌>>=◌, ◌>>◌, owned, find_row,
}
use gubbi.Journal.Topics.{TopicMeta, get, is_live, total_or}
use gubbi.Journal.Entries.{
  DateText, iso, other_form, malformed, live_by_id, decrypt_field, tags_fit,
}

-- Entry of gubbi/models/journal.py.
pub record EntryView : Type 0 where
  pub id : ℕ
  pub date : ℕ
  pub content : Text
  pub reasoning : Option Text
  pub conversation_id : Option ℕ
  pub tags : List Text

-- `if date_from: _validate_date(date_from)`: YYYY-MM-DD only.
abbrev pub validate_date : Option DateText → Exec (Option ℕ)
validate_date none = pure none
validate_date (some (iso d)) = pure (some d)
validate_date (some (other_form d)) = raise value_error
validate_date (some malformed) = raise value_error

abbrev pub from_bound : Option ℕ → ℕ → Bool
from_bound none d = true
from_bound (some a) d = leb a d

abbrev pub to_bound : Option ℕ → ℕ → Bool
to_bound none d = true
to_bound (some b) d = leb d b

abbrev pub in_topic : Conn → ℕ → Option ℕ → Option ℕ → Entry → Bool
in_topic conn topic from to e =
    owned conn.tenant e.user
    && (e.topic_id == topic && (is_live e && (from_bound from e.date && to_bound to e.date)))

-- `ORDER BY date DESC, created_at DESC, id DESC`.
abbrev pub newer : Entry → Entry → Bool
newer a b =
    ltb b.date a.date
    || a.date == b.date
      && (ltb b.created_at a.created_at || a.created_at == b.created_at && ltb b.ident a.ident)

-- A limit of zero or less is no limit.
abbrev pub sql_limit : Option ℕ → Option ℕ
sql_limit none = none
sql_limit (some n) = if ltb 0 n then some n else none

abbrev pub read_sql : Conn → ℕ → Option ℕ → Option ℕ → Option ℕ → ℕ → Tables → List Entry × ℕ
read_sql conn topic from to limit offset t =
    let rows = filter (in_topic conn topic from to) t.entries in
    (page (sql_limit limit) offset (sort_by newer rows), length rows)

abbrev pub decryption_failed : Text
decryption_failed = codes "[decryption-failed]"

-- Entry refuses a tag of more than 128 characters, and a content of None.
abbrev pub make_entry : Entry → Option Text → Option Text → Exec EntryView
make_entry e none reasoning = raise value_error
make_entry e (some content) reasoning = do
  require (tags_fit e.tags) value_error
  let view : EntryView = record {
    id = e.ident;
    date = e.date;
    content = content;
    reasoning = reasoning;
    conversation_id = e.conversation_id;
    tags = e.tags;
  }
  pure view

abbrev pub view_of : Entry → Option (Option Text × Option Text) → Exec EntryView
view_of e none = make_entry e (some decryption_failed) none
view_of e (some (content, reasoning)) = make_entry e content reasoning

abbrev both : Option (Option Text) → Option (Option Text) → Option (Option Text × Option Text)
both none r = none
both (some c) none = none
both (some c) (some r) = some (c, r)

module _ (aead : Aead) (cipher : ContentCipher) where
  abbrev pub opened : Sealed → Option (Option Text)
  opened f = decrypt_content_field aead cipher f.ciphertext f.nonce

  -- The content and the reasoning of a row; `none` is a DecryptionError of either.
  abbrev pub opened_both : Entry → Option (Option Text × Option Text)
  opened_both e = both (opened e.content) (opened e.reasoning)

  unfoldable pub build_entries : List Entry → Exec (List EntryView)
  unfolding decrypt_content_field
  build_entries [] = pure []
  build_entries (e ∷ es) = do
    view ← view_of e (opened_both e)
    rest ← build_entries es
    pure (view ∷ rest)

  -- The count of the empty page is over the same rows.
  unfoldable pub read :
      (Text → Text)
      → Conn
      → Text
      → Option ℕ
      → (date_from date_to : Option DateText) → (offset : ℕ)
      → Exec (TopicMeta × (List EntryView × ℕ))
  unfolding get build_entries
  read lower conn topic limit date_from date_to offset = do
    require conn.in_transaction assertion_error
    from ← validate_date date_from
    to ← validate_date date_to
    found ← get lower conn topic
    meta ← of_option topic_not_found found
    answer ← fetch conn (read_sql conn meta.id from to limit offset)
    total ←
        total_or answer.1 (fetch conn (λ t. count (in_topic conn meta.id from to) t.entries))
          answer.0
    views ← build_entries answer.0
    let result : TopicMeta × (List EntryView × ℕ) = (meta, (views, total))
    pure result

  abbrev pub text_of : Option Entry → Exec (Option (Option Text × Option Text))
  text_of none = pure none
  text_of (some e) = do
    content ← decrypt_field aead cipher e.content
    reasoning ← decrypt_field aead cipher e.reasoning
    let pair : Option Text × Option Text = (content, reasoning)
    pure (some pair)

  unfoldable pub get_text : Conn → ℕ → Exec (Option (Option Text × Option Text))
  unfolding decrypt_content_field
  get_text conn entry_id =
      fetch conn (λ t. find_row (live_by_id conn entry_id) t.entries) >>= text_of
