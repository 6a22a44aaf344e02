-- ===== src/Journal/Entries/Range.antt =====
-- get_by_date_range of gubbi/storage/repositories/entries.py. PostgreSQL's rendering of a date is a
-- parameter.
use gubbi.Prelude.{
  ℕ, Bool, true, false, ◌&&◌, ◌||◌, Option, none, some, List, [], ◌∷◌, ◌++◌, ◌==◌, nat_eq, list_eq,
  ltb, if◌then◌else◌, map, take, page, sort_by,
}
use gubbi.Pg.{Conn}
use gubbi.Crypto.Utf8.{Text}
use gubbi.Crypto.Cipher.{Aead, ContentCipher, decrypt_content_field}
use gubbi.Validation.Topic.{validate_topic}
use gubbi.Journal.Like.{like}
use gubbi.Journal.Store.{
  Topic, Entry, Conversation, Tables, runtime_error, Exec, pure, raise, fetch, of_option, ◌>>=◌,
  find_row,
}
use gubbi.Journal.Topics.{like_pattern, day_of}
use gubbi.Journal.Entries.{DateText, from_isoformat, decrypt_field}
use gubbi.Journal.Entries.Read.{opened}
use gubbi.Journal.Entries.Timeline.{topic_passes, entry_in_range, conversation_in_range}

-- A row of the UNION ALL, with its topic.
pub data Doc : Type 0 where
  entry_doc : Entry → Topic → Doc
  conversation_doc : Conversation → Topic → Doc

abbrev pub doc_date : Doc → ℕ
doc_date (entry_doc e k) = e.date
doc_date (conversation_doc c k) = day_of c.created_at

abbrev pub doc_id : Doc → ℕ
doc_id (entry_doc e k) = e.ident
doc_id (conversation_doc c k) = c.ident

-- 'conversation' sorts before 'entry'.
abbrev pub doc_type : Doc → ℕ
doc_type (conversation_doc c k) = 0
doc_type (entry_doc e k) = 1

abbrev pub directed : Bool → ℕ → ℕ → Bool
directed true a b = ltb a b
directed false a b = ltb b a

-- `ORDER BY date order, doc_type ASC, doc_id order`.
abbrev pub doc_before : (ascending : Bool) → Doc → Doc → Bool
doc_before ascending a b =
    directed ascending (doc_date a) (doc_date b)
    || doc_date a == doc_date b
      && (ltb (doc_type a) (doc_type b)
          || doc_type a == doc_type b && directed ascending (doc_id a) (doc_id b))

abbrev pub add_doc : Bool → Option Topic → (Topic → Doc) → List Doc → List Doc
add_doc keep none make rest = rest
add_doc keep (some k) make rest = if keep then make k ∷ rest else rest

unfoldable pub entry_docs : Conn → Option Text → ℕ → ℕ → Tables → List Entry → List Doc
unfolding like
entry_docs conn pattern from to t [] = []
entry_docs conn pattern from to t (e ∷ es) =
    add_doc (entry_in_range conn pattern from to t e)
      (find_row (topic_passes conn pattern e.topic_id) t.topics) (entry_doc e)
      (entry_docs conn pattern from to t es)

unfoldable pub conversation_docs :
    Conn → Option Text → ℕ → ℕ → Tables → List Conversation → List Doc
unfolding like
conversation_docs conn pattern from to t [] = []
conversation_docs conn pattern from to t (c ∷ cs) =
    add_doc (conversation_in_range conn pattern from to t c)
      (find_row (topic_passes conn pattern c.topic_id) t.topics) (conversation_doc c)
      (conversation_docs conn pattern from to t cs)

abbrev pub date_range_sql : Conn → Bool → ℕ → ℕ → Option Text → Option ℕ → ℕ → Tables → List Doc
date_range_sql conn ascending from to pattern limit offset t = page limit offset (
    sort_by (doc_before ascending) (
      entry_docs conn pattern from to t t.entries
      ++ conversation_docs conn pattern from to t t.conversations))

-- The dicts of both shapes; `description` is None in the shape with titles only.
pub record DocView : Type 0 where
  pub entry_id : Option ℕ
  pub conversation_id : Option ℕ
  pub topic : Text
  pub topic_title : Option Text
  pub title : Text
  pub description : Option Text
  pub tags : List Text
  pub updated : ℕ

abbrev pub or_else : Text → Text → Text
or_else [] other = other
or_else (c ∷ cs) other = c ∷ cs

abbrev pub labelled : Text → Text → Text
labelled [] date = date
labelled (c ∷ cs) [] = c ∷ cs
labelled (c ∷ cs) (d ∷ date) = (c ∷ cs) ++ (32 ∷ 40 ∷ ((d ∷ date) ++ (41 ∷ [])))

abbrev pub build_entry_title : (ℕ → Text) → Entry → Topic → Text
build_entry_title iso e k = labelled k.title (iso e.date)

abbrev pub snippet_preview_len : ℕ
snippet_preview_len = 200

-- `content.split("\n", 1)[0]`.
unfoldable pub first_line : Text → Text
first_line [] = []
first_line (c ∷ cs) = let rest = first_line cs in if c == 10 then [] else c ∷ rest

module _ (aead : Aead) where
  abbrev pub title_or_topic : Topic → Option (Option Text) → Text
  title_or_topic k none = k.title
  title_or_topic k (some none) = []
  title_or_topic k (some (some title)) = title

  abbrev pub decrypt_conv_title_or_none : Option ContentCipher → Conversation → Topic → Text
  decrypt_conv_title_or_none none c k = k.title
  decrypt_conv_title_or_none (some cipher) c k = title_or_topic k (opened aead cipher c.title)

  abbrev pub to_title_only_row : (ℕ → Text) → Option ContentCipher → Doc → DocView
  to_title_only_row iso cipher (entry_doc e k) = record {
    entry_id = some e.ident;
    conversation_id = none;
    topic = k.path;
    topic_title = some k.title;
    title = build_entry_title iso e k;
    description = none;
    tags = e.tags;
    updated = e.date;
  }
  to_title_only_row iso cipher (conversation_doc c k) = record {
    entry_id = none;
    conversation_id = some c.ident;
    topic = k.path;
    topic_title = some k.title;
    title = decrypt_conv_title_or_none cipher c k;
    description = none;
    tags = c.tags;
    updated = day_of c.created_at;
  }

  abbrev pub full_entry : Entry → Topic → Text → DocView
  full_entry e k content = record {
    entry_id = some e.ident;
    conversation_id = none;
    topic = k.path;
    topic_title = none;
    title = or_else (take 80 (first_line content)) k.title;
    description = some (take snippet_preview_len content);
    tags = e.tags;
    updated = e.date;
  }

  abbrev pub full_conversation : Conversation → Topic → Option Text → Option Text → Exec DocView
  full_conversation c k none summary = raise runtime_error
  full_conversation c k (some title) none = raise runtime_error
  full_conversation c k (some title) (some summary) = pure (record {
    entry_id = none;
    conversation_id = some c.ident;
    topic = k.path;
    topic_title = none;
    title = title;
    description = some (take snippet_preview_len summary);
    tags = c.tags;
    updated = day_of c.created_at;
  })

  abbrev pub to_full_row : ContentCipher → Doc → Exec DocView
  to_full_row cipher (entry_doc e k) = do
    plain ← decrypt_field aead cipher e.content
    content ← of_option runtime_error plain
    pure (full_entry e k content)
  to_full_row cipher (conversation_doc c k) = do
    title ← decrypt_field aead cipher c.title
    summary ← decrypt_field aead cipher c.summary
    full_conversation c k title summary

  unfoldable pub full_rows : ContentCipher → List Doc → Exec (List DocView)
  unfolding decrypt_content_field first_line
  full_rows cipher [] = pure []
  full_rows cipher (d ∷ ds) = do
    row ← to_full_row cipher d
    rest ← full_rows cipher ds
    pure (row ∷ rest)

  abbrev pub shape_rows :
      (ℕ → Text) → Option ContentCipher → (title_only : Bool) → List Doc → Exec (List DocView)
  shape_rows iso cipher true docs = pure (map (to_title_only_row iso cipher) docs)
  shape_rows iso none false docs = raise runtime_error
  shape_rows iso (some cipher) false docs = full_rows cipher docs

  unfoldable pub get_by_date_range :
      (Text → Text)
      → (iso : ℕ → Text) → Conn
      → Option ContentCipher
      → (date_from date_to : DateText) → (limit : Option ℕ) → (ascending : Bool) → (offset : ℕ)
      → (title_only : Bool) → (topic_prefix : Option Text) → Exec (List DocView)
  unfolding validate_topic entry_docs conversation_docs full_rows decrypt_content_field
  get_by_date_range lower iso conn cipher date_from date_to limit ascending offset title_only
        topic_prefix =
      do
        pattern ← like_pattern lower topic_prefix
        from ← from_isoformat date_from
        to ← from_isoformat date_to
        docs ← fetch conn (date_range_sql conn ascending from to pattern limit offset)
        shape_rows iso cipher title_only docs
