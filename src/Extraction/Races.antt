-- ===== src/Extraction/Races.antt =====
-- A topic that another session creates between the worker's lookup and its insert.
use gubbi.Prelude.{ℕ, ◌≡◌, refl, Bool, true, false, Option, none, some, List, [], ◌∷◌}
use gubbi.Pg.{Conn}
use gubbi.Crypto.Utf8.{Bytes, Text}
use gubbi.Crypto.Cipher.{Aead, ContentCipher}
use gubbi.Jobs.Table.{Job}
use gubbi.Validation.Topic.{validate_topic}
use gubbi.Journal.Store.{
  Tables, Audit, ok, err, unique_violation, in_failed_transaction, Exec, find_row,
}
use gubbi.Journal.Topics.{get_id, create, topic_at, insert_topic}
use gubbi.Journal.Entries.{append}
use gubbi.Journal.Conversations.Status.{mark_processed}
use gubbi.Extraction.Worker.{State, Context, Categorization, ExtractedEntry}
use gubbi.Extraction.Persist.{upsert_topic, append_entries, persist_extraction}

abbrev pub at_work : Tables → Bool → List Job → State → State
at_work t aborted js s = record s {
  journal = record { tables = t; aborted = aborted };
  jobs = record { rows = js; aborted = aborted };
}

module _ (aead : Aead) (cipher : ContentCipher) (lower : Text → Text) (conn : Conn)
    (others : Tables → Tables) (topic path title : Text) (t : Tables) (js : List Job) (s : State)
    (in_transaction : conn.in_transaction ≡ true) (valid : validate_topic lower topic ≡ some path)
    (absent : find_row (topic_at conn path) t.topics ≡ none)
    (taken : insert_topic conn path title [] conn.now (others t) ≡ err unique_violation) where
  upsert_topic_race :
      upsert_topic aead cipher lower conn others topic title (at_work t false js s)
      ≡ (ok false, at_work (others t) true js s)
  unfolding upsert_topic get_id create
  upsert_topic_race = rw (valid, absent) (rw (create, valid, taken, in_transaction) refl)

module _ (aead : Aead) (cipher : ContentCipher) (lower : Text → Text) (conn : Conn)
    (topic path : Text) (t : Tables) (js : List Job) (s : State)
    (valid : validate_topic lower topic ≡ some path) where
  append_entries_refused :
      (drawn : ℕ → ℕ → Bytes) (n : ℕ) (e : ExtractedEntry) (es : List ExtractedEntry)
      → append_entries aead cipher lower conn drawn n topic (e ∷ es) (at_work t true js s)
        ≡ (err in_failed_transaction, at_work t true js s)
  unfolding append_entries append get_id
  append_entries_refused drawn n e es = rw (valid) refl

module _ (aead : Aead) (cipher : ContentCipher) (lower : Text → Text)
    (record_audit : Conn → Audit → Exec (Unit {0})) (ctx : Context) (others : Tables → Tables)
    (drawn : ℕ → ℕ → Bytes) (attempt : Text) where
  -- Where another session commits the topic between the lookup and the insert of a connection's
  -- transaction, the insert is refused and the transaction is aborted, so that the persisting phase ends
  -- with InFailedSQLTransaction, whatever entries it has, and leaves the tables as the other session
  -- committed them.
  pub persist_extraction_race :
      (user conversation_id cents : ℕ) (job : Option ℕ) (topic path : Text) (t : Tables)
      (js : List Job) (s : State) (c : Categorization) (entries : List ExtractedEntry)
      → ctx.conn.in_transaction ≡ true
      → validate_topic lower topic ≡ some path
      → find_row (topic_at ctx.conn path) t.topics ≡ none
      → insert_topic ctx.conn path c.topic_title [] ctx.conn.now (others t) ≡ err unique_violation
      → persist_extraction record_audit aead cipher lower ctx others drawn attempt user job
          conversation_id topic c entries cents
          (at_work t false js s)
        ≡ (err in_failed_transaction, at_work (others t) true js s)
  unfolding persist_extraction append_entries mark_processed
  persist_extraction_race user conversation_id cents job topic path t js s c [] inside valid absent
        taken =
      rw
        (upsert_topic_race aead cipher lower ctx.conn others topic path c.topic_title t js s inside
          valid absent taken)
        refl
  persist_extraction_race user conversation_id cents job topic path t js s c (e ∷ es) inside valid
        absent taken =
      rw
        (
          upsert_topic_race aead cipher lower ctx.conn others topic path c.topic_title t js s inside
              valid absent taken,
          append_entries_refused aead cipher lower ctx.conn topic path (others t) js s valid drawn 0
              e es,
        )
        refl
