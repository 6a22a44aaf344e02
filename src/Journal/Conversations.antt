-- ===== src/Journal/Conversations.antt =====
-- The conversation repository, gubbi/storage/repositories/conversations.py: what it writes.
use gubbi.Prelude.{
  ℕ, ◌+◌, ◌*◌, Bool, true, false, ◌&&◌, ◌||◌, not, Option, none, some, List, [], ◌∷◌, ◌++◌, ◌==◌,
  nat_eq, list_eq, ltb, leb, if◌then◌else◌, any, filter, map, length, contains, is_space, codes,
}
use gubbi.Pg.{Conn}
use gubbi.Crypto.Utf8.{Bytes, Text}
use gubbi.Crypto.Cipher.{Aead, ContentCipher, encrypt}
use gubbi.Validation.Topic.{validate_topic}
use gubbi.Validation.Title.{validate_title, slugify, strip_of, drop_while, rstrip}
use gubbi.Journal.Store.{
  Topic, Entry, Conversation, Message, Sealed, Tables, Error, Result, ok, err, unique_violation,
  foreign_key_violation, insufficient_privilege, value_error, assertion_error, os_error, Exec, pure,
  raise, statement, fetch, execute, of_option, require, ◌>>=◌, ◌>>◌, owned, find_row, rewrite,
}
use gubbi.Journal.Topics.{get_id, topic_exists, day_of}
use gubbi.Journal.Topics.Mutations.{touch_topic}
use gubbi.Journal.Entries.{
  DateText, iso, other_form, malformed, from_isoformat, today, date_or_today, no_columns,
  encrypt_text, insert_entry, entry_by_id,
}
pub mod Save
pub mod Status
pub mod Read

-- A message as it is given: the timestamp by what datetime.fromisoformat makes of it.
pub record MessageText : Type 0 where
  pub role : Text
  pub content : Text
  pub timestamp : Option DateText

abbrev pub parse_ts : Option DateText → Option ℕ
parse_ts none = none
parse_ts (some (iso time)) = some time
parse_ts (some (other_form time)) = some time
parse_ts (some malformed) = none

-- Python's order of texts.
unfoldable pub text_before : Text → Text → Bool
text_before [] [] = false
text_before [] (d ∷ ds) = true
text_before (c ∷ cs) [] = false
text_before (c ∷ cs) (d ∷ ds) = let rest = text_before cs ds in if c == d then rest else ltb c d

-- `sorted({m.role for m in messages})`.
unfoldable pub insert_role : Text → List Text → List Text
unfolding text_before
insert_role r [] = r ∷ []
insert_role r (q ∷ qs) =
    let rest = insert_role r qs in
    if r == q then q ∷ qs else if text_before r q then r ∷ q ∷ qs else q ∷ rest

unfoldable pub participants_of : List MessageText → List Text
unfolding insert_role
participants_of [] = []
participants_of (m ∷ ms) = insert_role m.role (participants_of ms)

abbrev pub archive_path : Text → Text
archive_path file_id = codes "conversations_json/" ++ (file_id ++ codes ".json")

-- _write_conversation_json: a write that the disk refuses is an OSError. `file_id` is uuid4().
abbrev pub write_conversation_json : (disk_full : Bool) → (file_id : Text) → Exec Text
write_conversation_json true file_id s = (err os_error, s)
write_conversation_json false file_id s = (
  ok (archive_path file_id),
  record s { tables = record s.tables { archive = (file_id ++ codes ".json") ∷ s.tables.archive } },
)

-- `Path(json_path).name`.
unfoldable pub basename : Text → Text
basename [] = []
basename (c ∷ cs) = if c == 47 then basename cs else if contains cs 47 then basename cs else c ∷ cs

-- The archive that no row refers to any more; `blocked` is a symbolic link or an OSError.
unfoldable pub delete_superseded_json_archive : (blocked : Bool) → Text → Tables → Tables
unfolding basename
delete_superseded_json_archive blocked json_path t =
    if blocked
    then t
    else record t { archive = filter (λ f. not (f == basename json_path)) t.archive }

-- The row that the INSERT proposes.
pub record Proposed : Type 0 where
  pub topic_id : ℕ
  pub slug : Text
  pub source : Text
  pub title : Sealed
  pub summary : Sealed
  pub tags : List Text
  pub participants : List Text
  pub message_count : ℕ
  pub created_at : ℕ
  pub json_path : Text
  pub search_vector : Text

abbrev pub conflicts : ℕ → Text → Conversation → Bool
conflicts topic_id slug c = c.topic_id == topic_id && c.slug == slug

abbrev pub new_conversation : ℕ → ℕ → ℕ → Proposed → Conversation
new_conversation ident user now p = record {
  ident = ident;
  user = user;
  topic_id = p.topic_id;
  slug = p.slug;
  source = p.source;
  tags = p.tags;
  participants = p.participants;
  message_count = p.message_count;
  json_path = some p.json_path;
  created_at = p.created_at;
  updated_at = now;
  title = p.title;
  summary = p.summary;
  search_vector = p.search_vector;
  platform = none;
  processed_at = none;
}

-- DO UPDATE leaves created_at, the platform and processed_at.
abbrev pub overwritten : ℕ → Proposed → Conversation → Conversation
overwritten now p c = record c {
  source = p.source;
  title = p.title;
  summary = p.summary;
  tags = p.tags;
  participants = p.participants;
  message_count = p.message_count;
  updated_at = now;
  json_path = some p.json_path;
  search_vector = p.search_vector;
}

-- What is answered: the identifier, and `xmax != 0`.
abbrev pub insert_or_update :
    Conn → ℕ → Proposed → Tables → Option Conversation → Result ((ℕ × Bool) × Tables)
insert_or_update conn user p t none =
    if topic_exists p.topic_id t.topics
    then ok (
      (t.next_conversation, false),
      record t {
        conversations = new_conversation t.next_conversation user conn.now p ∷ t.conversations;
        next_conversation = t.next_conversation + 1;
      },
    )
    else err foreign_key_violation
insert_or_update conn user p t (some c) =
    if owned conn.tenant c.user
    then ok (
      (c.ident, true),
      record t {
        conversations =
            rewrite (conflicts p.topic_id p.slug) (overwritten conn.now p) t.conversations;
      },
    )
    else err insufficient_privilege

unfoldable pub upsert_row : Conn → Proposed → Tables → Result ((ℕ × Bool) × Tables)
upsert_row conn p t = elim conn.tenant [
  | none ↦ err insufficient_privilege
  | some user ↦
      insert_or_update conn user p t (find_row (conflicts p.topic_id p.slug) t.conversations)
]

abbrev pub delete_messages : Conn → ℕ → Tables → Tables
delete_messages conn conv_id t = record t {
  messages =
      filter (λ (m : Message). not (owned conn.tenant m.user && m.conversation_id == conv_id))
        t.messages;
}

abbrev pub tenant_or : Option ℕ → ℕ
tenant_or none = 0
tenant_or (some user) = user

-- The update of the linked entry, with its reasoning cleared.
abbrev pub relink : ℕ → ℕ → Sealed → Text → Entry → Entry
relink now date content plain e = record e {
  content = content;
  search_vector = plain;
  reasoning = no_columns;
  updated_at = now;
  date = date;
  indexed_at = none;
}

abbrev pub linked_to : Conn → ℕ → Entry → Bool
linked_to conn conv_id e =
    owned conn.tenant e.user && elim e.conversation_id [ none ↦ false | some i ↦ i == conv_id ]

abbrev pub linked_text : Text → Text → Text
linked_text title summary = codes "Conversation saved: " ++ (title ++ (10 ∷ 10 ∷ summary))

pub record SaveConversationResult : Type 0 where
  pub conversation_id : ℕ
  pub summary : Text
  pub is_update : Bool
  pub linked_entry_id : ℕ
  pub superseded_json_path : Option Text

abbrev pub old_path : Option Conversation → Option Text
old_path none = none
old_path (some c) = c.json_path

-- `old_json_path if is_update and old_json_path and old_json_path != json_path else None`.
abbrev pub superseded : Bool → Option Text → Text → Option Text
superseded false old json_path = none
superseded true none json_path = none
superseded true (some []) json_path = none
superseded true (some (c ∷ cs)) json_path = if (c ∷ cs) == json_path then none else some (c ∷ cs)

abbrev pub conversation_by_id : Conn → ℕ → Conversation → Bool
conversation_by_id conn i c = owned conn.tenant c.user && c.ident == i
