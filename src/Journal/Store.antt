-- ===== src/Journal/Store.antt =====
-- The journal's tables of gubbi/alembic/baseline_schema.sql, and what the repositories rely on of a
-- PostgreSQL connection: statements, the row policy, transactions and savepoints.
use gubbi.Prelude.{
  ℕ, String, Bool, true, false, Option, none, some, List, [], ◌∷◌, if◌then◌else◌, ◌==◌, nat_eq,
}
use gubbi.Pg.{Conn}
use gubbi.Crypto.Utf8.{Bytes, Text}

-- Identifiers, users, dates and times are numbers. A search_vector is the text it is made from.
pub record Topic : Type 0 where
  pub ident : ℕ
  pub user : ℕ
  pub path : Text
  pub title : Text
  pub description : Text
  pub created_at : ℕ
  pub updated_at : ℕ

-- A pair of columns: a ciphertext and its nonce.
pub record Sealed : Type 0 where
  pub ciphertext : Option Bytes
  pub nonce : Option Bytes

pub record Entry : Type 0 where
  pub ident : ℕ
  pub user : ℕ
  pub topic_id : ℕ
  pub date : ℕ
  pub conversation_id : Option ℕ
  pub tags : List Text
  pub created_at : ℕ
  pub updated_at : ℕ
  pub deleted_at : Option ℕ
  pub indexed_at : Option ℕ
  pub content : Sealed
  pub reasoning : Sealed
  pub search_vector : Text

pub record Conversation : Type 0 where
  pub ident : ℕ
  pub user : ℕ
  pub topic_id : ℕ
  pub slug : Text
  pub source : Text
  pub tags : List Text
  pub participants : List Text
  pub message_count : ℕ
  pub json_path : Option Text
  pub created_at : ℕ
  pub updated_at : ℕ
  pub title : Sealed
  pub summary : Sealed
  pub search_vector : Text
  pub platform : Option (Text × Text)
  pub processed_at : Option ℕ

pub record Message : Type 0 where
  pub conversation_id : ℕ
  pub user : ℕ
  pub role : Text
  pub timestamp : Option ℕ
  pub position : ℕ
  pub content : Sealed
  pub search_vector : Text

pub data Action : Type 0 where
  topic_renamed topic_deleted topic_merged entry_moved : Action
  conversation_extracted job_completed job_failed : Action

pub data Value : Type 0 where
  text : Text → Value
  number : ℕ → Value

-- What record_audit is given, with actor_type 'user'.
pub record Audit : Type 0 where
  pub actor : ℕ
  pub action : Action
  pub target : ℕ
  pub metadata : List (String × Value)

-- `embeddings` are the keys of entry_embeddings, `archive` the names of the files in the directory
-- conversations_json. The last three are the identity sequences.
pub record Tables : Type 0 where
  pub topics : List Topic
  pub entries : List Entry
  pub conversations : List Conversation
  pub messages : List Message
  pub embeddings : List ℕ
  pub audits : List Audit
  pub archive : List Text
  pub next_topic : ℕ
  pub next_entry : ℕ
  pub next_conversation : ℕ

-- The exceptions that reach the code: asyncpg's, Python's, and the repositories' own.
pub data Error : Type 0 where
  unique_violation foreign_key_violation insufficient_privilege in_failed_transaction : Error
  topic_not_found topic_already_exists topic_merge_conflict : Error
  entry_not_found conversation_not_found : Error
  entries_move_not_found : List ℕ → Error
  value_error runtime_error assertion_error decryption_error os_error : Error
  llm_rate_limit_error llm_provider_error : Error

pub data Result {ℓ} (A : Type ℓ) : Type ℓ where
  ok : A → Result A
  err : Error → Result A

pub record Session : Type 0 where
  pub tables : Tables
  pub aborted : Bool

-- A session between statements, in a state where none has failed.
abbrev pub ready : Tables → Session
ready t = record { tables = t; aborted = false }

abbrev pub Exec : Type 0 → Type 0
Exec A = Session → Result A × Session

module _ {A : Type 0} where
  abbrev pub pure : A → Exec A
  pure a s = (ok a, s)

  abbrev pub raise : Error → Exec A
  raise e s = (err e, s)

  -- A statement that has been evaluated: the new tables, or its error.
  abbrev pub settle : Conn → Session → Result (A × Tables) → Result A × Session
  settle conn s (ok (a, t)) = (ok a, record s { tables = t })
  settle conn s (err e) = (err e, record s { aborted = conn.in_transaction })

  -- One SQL statement. In an aborted transaction every statement is refused.
  abbrev pub statement : Conn → (Tables → Result (A × Tables)) → Exec A
  statement conn run s =
      if s.aborted then (err in_failed_transaction, s) else settle conn s (run s.tables)

  -- A statement that only reads.
  abbrev pub fetch : Conn → (Tables → A) → Exec A
  fetch conn read = statement conn (λ t. ok (read t, t))

  abbrev pub of_option : Error → Option A → Exec A
  of_option e none = raise e
  of_option e (some a) = pure a

abbrev pub execute : Conn → (Tables → Tables) → Exec (Unit {0})
execute conn write = statement conn (λ t. ok (tt, write t))

module _ {A B : Type 0} where
  abbrev pub continue : Result A → (A → Exec B) → Exec B
  continue (ok a) f s = f a s
  continue (err e) f s = (err e, s)

  infixl 5 ◌>>=◌ ◌>>◌
  abbrev pub ◌>>=◌ : Exec A → (A → Exec B) → Exec B
  ◌>>=◌ m f s = let (r, s') = m s in continue r f s'

  abbrev pub ◌>>◌ : Exec A → Exec B → Exec B
  m >> n = m >>= λ _. n

abbrev pub require : Bool → Error → Exec (Unit {0})
require true e = pure tt
require false e = raise e

-- What a rollback leaves: the tables as they were; the files, and the sequences as drawn.
abbrev pub rolled_back : Tables → Tables → Tables
rolled_back before after = record before {
  archive = after.archive;
  next_topic = after.next_topic;
  next_entry = after.next_entry;
  next_conversation = after.next_conversation;
}

module _ {A : Type 0} where
  abbrev pub handle : Result A → (Error → Exec A) → Exec A
  handle (ok a) handler s = (ok a, s)
  handle (err e) handler s = handler e s

  -- `try: m; except E as e: handler(e)`.
  abbrev pub catch : Exec A → (Error → Exec A) → Exec A
  catch m handler s = let (r, s') = m s in handle r handler s'

  -- The end of the block; `nested` tells a savepoint. An exception that leaves the block rolls it
  -- back. So does an aborted state: COMMIT then answers ROLLBACK, and RELEASE SAVEPOINT is refused.
  abbrev pub finish : Bool → Session → Result A → Session → Result A × Session
  finish nested before (ok a) after =
      if after.aborted
      then (
        if nested then err in_failed_transaction else ok a,
        record before { tables = rolled_back before.tables after.tables },
      )
      else (ok a, after)
  finish nested before (err e) after =
      (err e, record before { tables = rolled_back before.tables after.tables })

  -- `async with conn.transaction()` outside a transaction.
  abbrev pub transaction : Exec A → Exec A
  transaction m s = let (r, s') = m s in finish false s r s'

  -- `async with conn.transaction()` inside one.
  abbrev pub savepoint : Exec A → Exec A
  savepoint m s = let (r, s') = m s in finish true s r s'

-- The row-level policy: `user_id = app_current_user_active()`.
abbrev pub owned : Option ℕ → ℕ → Bool
owned none user = false
owned (some u) user = user == u

-- `fetchrow`: the first row that passes the test.
module _ {R : Type 0} where
  abbrev pub find_row : (R → Bool) → List R → Option R
  find_row test [] = none
  find_row test (r ∷ rs) = let rest = find_row test rs in if test r then some r else rest

  -- `UPDATE ... SET ... WHERE test`.
  abbrev pub rewrite : (R → Bool) → (R → R) → List R → List R
  rewrite test f [] = []
  rewrite test f (r ∷ rs) = (if test r then f r else r) ∷ rewrite test f rs
