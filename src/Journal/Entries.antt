-- ===== src/Journal/Entries.antt =====
-- The entry repository, gubbi/storage/repositories/entries.py: the operations that write.
use gubbi.Prelude.{
  ℕ, ◌+◌, ◌/◌, Bool, true, false, ◌&&◌, ◌||◌, not, Option, none, some, List, [], ◌∷◌, ◌++◌, ◌==◌,
  nat_eq, list_eq, ltb, if◌then◌else◌, any, filter, map, length, contains, is_space, String,
}
use gubbi.Pg.{Conn}
use gubbi.Crypto.Utf8.{Bytes, Text}
use gubbi.Crypto.Cipher.{
  Aead, ContentCipher, Encrypted, sealed, value_error as refused, encrypt, decrypt_content_field,
}
use gubbi.Validation.Title.{strip_of, drop_while, rstrip}
use gubbi.Journal.Store.{
  Topic, Entry, Sealed, Tables, Audit, entry_moved, Value, text, number, Error, Result, ok, err,
  foreign_key_violation, insufficient_privilege, topic_not_found, entry_not_found,
  entries_move_not_found, value_error, runtime_error, assertion_error, decryption_error, Exec, pure,
  raise, statement, fetch, execute, of_option, require, ◌>>=◌, ◌>>◌, owned, find_row, rewrite,
}
use gubbi.Journal.Topics.{get_id, topic_by_id, topic_exists, is_live}
use gubbi.Journal.Topics.Mutations.{touch_topic, topic_audit}
pub mod Read
pub mod Move
pub mod Listing
pub mod Index
pub mod Timeline
pub mod Range
pub mod Roundtrip
pub mod Pages
pub mod Buckets

-- A date text by what the code makes of it: YYYY-MM-DD, another form that date.fromisoformat takes,
-- or neither. A text that is None or empty is `none`, since the code tests it so.
pub data DateText : Type 0 where
  iso other_form : ℕ → DateText
  malformed : DateText

abbrev pub from_isoformat : DateText → Exec ℕ
from_isoformat (iso d) = pure d
from_isoformat (other_form d) = pure d
from_isoformat malformed = raise value_error

abbrev pub today : Conn → ℕ
today conn = conn.now / 86400

abbrev pub date_or_today : Conn → Option DateText → Exec ℕ
date_or_today conn none = pure (today conn)
date_or_today conn (some d) = from_isoformat d

-- The models refuse a tag of more than 128 characters (Tag128).
abbrev pub tags_fit : List Text → Bool
tags_fit tags = not (any (λ g. ltb 128 (length g)) tags)

abbrev pub no_columns : Sealed
no_columns = record { ciphertext = none; nonce = none }

abbrev pub columns : Encrypted → Exec Sealed
columns (sealed ciphertext nonce) =
    pure (record { ciphertext = some ciphertext; nonce = some nonce })
columns refused = raise value_error

-- The row policy on `WHERE id = $1`.
abbrev pub entry_by_id : Conn → ℕ → Entry → Bool
entry_by_id conn i e = owned conn.tenant e.user && e.ident == i

abbrev pub live_by_id : Conn → ℕ → Entry → Bool
live_by_id conn i e = entry_by_id conn i e && is_live e

-- The CTE of append: the row, and the topic's time.
abbrev pub new_entry : ℕ → ℕ → ℕ → Option ℕ → ℕ → List Text → Sealed → Sealed → Text → ℕ → Entry
new_entry ident user topic conversation date tags content reasoning search now = record {
  ident = ident;
  user = user;
  topic_id = topic;
  date = date;
  conversation_id = conversation;
  tags = tags;
  created_at = now;
  updated_at = now;
  deleted_at = none;
  indexed_at = none;
  content = content;
  reasoning = reasoning;
  search_vector = search;
}

unfoldable pub insert_entry :
    Conn → ℕ → Option ℕ → ℕ → List Text → Sealed → Sealed → Text → Tables → Result (ℕ × Tables)
insert_entry conn topic conversation date tags content reasoning search t = elim conn.tenant [
  | none ↦ err insufficient_privilege
  | some user ↦
      if topic_exists topic t.topics
      then ok (
        t.next_entry,
        record t {
          entries =
              new_entry t.next_entry user topic conversation date tags content reasoning search
                conn.now
              ∷ t.entries;
          next_entry = t.next_entry + 1;
        },
      )
      else err foreign_key_violation
]

abbrev pub append_cte :
    Conn → ℕ → ℕ → List Text → Sealed → Sealed → Text → Tables → Result (ℕ × Tables)
append_cte conn topic date tags content reasoning search t =
    insert_entry conn topic none date tags content reasoning search (touch_topic conn topic t)

-- The content and the reasoning that update writes; `none` leaves the columns alone.
pub data Mode : Type 0 where
  replace append_mode : Mode
  invalid_mode : Mode

abbrev pub newline2 : Text
newline2 = 10 ∷ 10 ∷ []

-- `f"{old}\n\n{new}".strip()`.
abbrev pub joined : Text → Text → Text
joined old new = strip_of is_space (old ++ (newline2 ++ new))

abbrev pub write_content : Option (Sealed × Text) → Entry → Entry
write_content none e = e
write_content (some (columns, plain)) e = record e { content = columns; search_vector = plain }

abbrev pub write_reasoning : Option Sealed → Entry → Entry
write_reasoning none e = e
write_reasoning (some columns) e = record e { reasoning = columns }

abbrev pub write_date : Option ℕ → Entry → Entry
write_date none e = e
write_date (some d) e = record e { date = d }

abbrev pub write_tags : Option (List Text) → Entry → Entry
write_tags none e = e
write_tags (some tags) e = record e { tags = tags }

abbrev pub given : {A : Type 0} → Option A → Bool
given none = false
given (some a) = true

abbrev pub clear_index : Bool → Entry → Entry
clear_index false e = e
clear_index true e = record e { indexed_at = none }

-- The SET clause.
pub record Changes : Type 0 where
  pub content : Option (Sealed × Text)
  pub reasoning : Option Sealed
  pub date : Option ℕ
  pub tags : Option (List Text)

abbrev pub text_changed : Changes → Bool
text_changed c = given c.content || given c.reasoning

abbrev pub set_clause : ℕ → Changes → Entry → Entry
set_clause now c e =
    record (clear_index (text_changed c) (
      write_tags c.tags
        (write_date c.date (write_reasoning c.reasoning (write_content c.content e))))) {
          updated_at = now;
        }

-- The row that was locked is updated, and its topic's time.
unfoldable pub update_entry : Conn → ℕ → ℕ → Changes → Tables → Tables
update_entry conn entry_id topic_id changes t = touch_topic conn topic_id (record t {
  entries = rewrite (entry_by_id conn entry_id) (set_clause conn.now changes) t.entries;
})

abbrev pub delete_embedding : ℕ → Tables → Tables
delete_embedding entry_id t = record t {
  embeddings = filter (λ k. not (k == entry_id)) t.embeddings;
}

abbrev pub delete_embedding_if : Bool → ℕ → Tables → Tables
delete_embedding_if false entry_id t = t
delete_embedding_if true entry_id t = delete_embedding entry_id t

-- A DELETE statement is sent only where the text has changed.
abbrev pub drop_embedding : Conn → Bool → ℕ → Exec (Unit {0})
drop_embedding conn false entry_id = pure tt
drop_embedding conn true entry_id = execute conn (delete_embedding entry_id)

abbrev pub optional_date : Option DateText → Exec (Option ℕ)
optional_date none = pure none
optional_date (some d) = from_isoformat d >>= λ day. pure (some day)

module _ (aead : Aead) (cipher : ContentCipher) where
  -- `drawn` is what token_bytes(11) gives.
  abbrev pub encrypt_text : Bytes → Text → Exec Sealed
  encrypt_text drawn plain = columns (encrypt aead cipher drawn plain)

  abbrev pub encrypt_optional : Bytes → Option Text → Exec Sealed
  encrypt_optional drawn none = pure no_columns
  encrypt_optional drawn (some plain) = encrypt_text drawn plain

  abbrev pub decrypt_field : Sealed → Exec (Option Text)
  decrypt_field f =
      of_option decryption_error (decrypt_content_field aead cipher f.ciphertext f.nonce)

  -- `drawn` and `drawn'` are the nonces of the content and of the reasoning.
  unfoldable pub append :
      (Text → Text)
      → Conn
      → (drawn drawn' : Bytes) → (topic content : Text) → Option Text
      → List Text
      → Option DateText
      → Exec ℕ
  unfolding get_id insert_entry encrypt
  append lower conn drawn drawn' topic content reasoning tags date = do
    topic_id ← get_id lower conn topic
    d ← date_or_today conn date
    content_columns ← encrypt_text drawn content
    reasoning_columns ← encrypt_optional drawn' reasoning
    statement conn (append_cte conn topic_id d tags content_columns reasoning_columns content)

  abbrev pub appended : Text → Option Text → Exec Text
  appended new none = raise runtime_error
  appended new (some old) = pure (joined old new)

  abbrev pub content_text : Mode → Entry → Text → Exec Text
  content_text replace e new = pure new
  content_text append_mode e new = decrypt_field e.content >>= appended new
  content_text invalid_mode e new = raise value_error

  -- A reasoning that is NULL or empty is replaced.
  abbrev pub after_reasoning : Text → Option Text → Text
  after_reasoning new none = new
  after_reasoning new (some []) = new
  after_reasoning new (some (c ∷ old)) = joined (c ∷ old) new

  abbrev pub reasoning_text : Mode → Entry → Text → Exec Text
  reasoning_text replace e new = pure new
  reasoning_text append_mode e new =
      decrypt_field e.reasoning >>= λ old. pure (after_reasoning new old)
  reasoning_text invalid_mode e new = pure new

  abbrev pub new_content : Mode → Entry → Option Text → Exec (Option Text)
  new_content mode e none = pure none
  new_content mode e (some new) = content_text mode e new >>= λ plain. pure (some plain)

  abbrev pub new_reasoning : Mode → Entry → Option Text → Exec (Option Text)
  new_reasoning mode e none = pure none
  new_reasoning mode e (some new) = reasoning_text mode e new >>= λ plain. pure (some plain)

  abbrev pub content_columns : Bytes → Option Text → Exec (Option (Sealed × Text))
  content_columns drawn none = pure none
  content_columns drawn (some plain) = encrypt_text drawn plain >>= λ c. pure (some (c, plain))

  abbrev pub reasoning_columns : Bytes → Option Text → Exec (Option Sealed)
  reasoning_columns drawn none = pure none
  reasoning_columns drawn (some plain) = encrypt_text drawn plain >>= λ c. pure (some c)

  unfoldable pub update :
      Conn
      → (drawn drawn' : Bytes) → (entry_id : ℕ) → Option Text
      → Option Text
      → Mode
      → Option DateText
      → Option (List Text)
      → Exec (Unit {0})
  unfolding update_entry encrypt decrypt_content_field
  update conn drawn drawn' entry_id content reasoning mode date tags = do
    require conn.in_transaction assertion_error
    row ← fetch conn (λ t. find_row (live_by_id conn entry_id) t.entries)
    e ← of_option entry_not_found row
    plain ← new_content mode e content
    plain' ← new_reasoning mode e reasoning
    c ← content_columns drawn plain
    r ← reasoning_columns drawn' plain'
    d ← optional_date date
    let changes : Changes = record { content = c; reasoning = r; date = d; tags = tags }
    execute conn (update_entry conn entry_id e.topic_id changes)
    drop_embedding conn (text_changed changes) entry_id

-- The CTE of delete, on the live row.
abbrev pub soft_delete : ℕ → Entry → Entry
soft_delete now e = record e { deleted_at = some now; updated_at = now }

abbrev pub deleted_topic : Conn → Tables → ℕ → Option Entry → Option ℕ × Tables
deleted_topic conn t entry_id none = (none, t)
deleted_topic conn t entry_id (some e) = (
  some e.topic_id,
  touch_topic conn e.topic_id (
      delete_embedding entry_id (record t {
        entries = rewrite (live_by_id conn entry_id) (soft_delete conn.now) t.entries;
      })),
)

unfoldable pub delete_cte : Conn → ℕ → Tables → Option ℕ × Tables
delete_cte conn entry_id t =
    deleted_topic conn t entry_id (find_row (live_by_id conn entry_id) t.entries)

unfoldable pub delete : Conn → ℕ → Exec ℕ
unfolding delete_cte
delete conn entry_id =
    statement conn (λ t. ok (delete_cte conn entry_id t)) >>= of_option entry_not_found
