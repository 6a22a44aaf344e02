-- ===== src/Extraction/Persist.antt =====
-- The steps of gubbi/extraction/jobs/extract_conversation.py that use a connection.
use gubbi.Prelude.{ℕ, ◌+◌, String, Bool, true, false, Option, none, some, List, [], ◌∷◌, map, codes}
use gubbi.Pg.{Conn}
use gubbi.Crypto.Utf8.{Bytes, Text}
use gubbi.Crypto.Cipher.{Aead, ContentCipher}
use gubbi.Jobs.Repository.{mark_running, get_period_start, mark_completed, mark_failed}
use gubbi.Journal.Store
use gubbi.Journal.Store.{
  Tables, Session, Audit, Value, text, number, conversation_extracted, job_completed, job_failed,
  Error, Result, ok, err, topic_not_found, topic_already_exists, Exec,
}
use gubbi.Journal.Topics.{TopicMeta, get_id, create, list_all}
use gubbi.Journal.Entries.{append}
use gubbi.Journal.Conversations.Status.{get_processed_at, mark_processed}
use gubbi.Journal.Conversations.Read.{MessageView, read_conversation_by_id}
use gubbi.Extraction.Worker.{
  Categorization, ExtractedEntry, LlmMessage, Work, pure, raise, ◌>>=◌, ◌>>◌, on_journal, on_jobs,
  scoped, Context, loading, skipping, failing,
}

abbrev pub is_processed : Option ℕ → Bool
is_processed none = false
is_processed (some time) = true

unfoldable pub check_idempotent : Conn → ℕ → Work Bool
unfolding get_processed_at
check_idempotent conn conversation_id =
    on_journal (get_processed_at conn conversation_id) >>= λ time. pure (is_processed time)

pub record Loaded : Type 0 where
  pub messages : List LlmMessage
  pub existing_topics : List Text

abbrev pub llm_message : MessageView → LlmMessage
llm_message m = (m.role, m.content)

-- `job` is None where the identifier is 'unknown'.
abbrev pub start_job : Conn → Option ℕ → Work (Option ℕ)
start_job conn none = pure none
start_job conn (some job) = do on_jobs (mark_running conn job); on_jobs (get_period_start conn job)

-- `_period_start_known = job_period_start is not None`, where there is a job.
abbrev pub is_known : Option ℕ → Bool
is_known none = false
is_known (some p) = true

abbrev pub note_period : Option ℕ → Option ℕ → Work (Unit {0})
note_period none period s = (ok tt, s)
note_period (some job) period s = (ok tt, record s { period_start_known = is_known period })

-- What conn1 gives: nothing for a conversation that has been processed.
pub data Phase1 : Type 0 where
  already_processed : Phase1
  loaded : (period : Option ℕ) → Loaded → Phase1

abbrev pub audit_of : ℕ → Store.Action → ℕ → List (String × Value) → Audit
audit_of user action target metadata = record {
  actor = user;
  action = action;
  target = target;
  metadata = metadata;
}

-- `except TopicAlreadyExists`: the topic counts as not created.
abbrev pub on_race : Result ℕ → Work Bool
on_race (ok i) = pure true
on_race (err topic_already_exists) = pure false
on_race (err e) = raise e

abbrev pub topics_created_count : Bool → ℕ
topics_created_count false = 0
topics_created_count true = 1

module _ (aead : Aead) (cipher : ContentCipher) (lower : Text → Text) where
  abbrev pub load_conversation_for_extraction : Conn → ℕ → Work Loaded
  load_conversation_for_extraction conn conversation_id = do
    read ← on_journal (read_conversation_by_id aead cipher conn conversation_id false)
    topics ← on_journal (list_all lower conn none none 0)
    let result : Loaded = record {
      messages = map llm_message read.1.0;
      existing_topics = map (λ (m : TopicMeta). m.topic) topics.0;
    }
    pure result

  -- `others` is what other sessions commit between the lookup and the insert.
  abbrev pub upsert_found : Conn → (Tables → Tables) → Text → Text → Result ℕ → Work Bool
  upsert_found conn others path title (ok i) s = (ok false, s)
  upsert_found conn others path title (err topic_not_found) s =
      let seen = record s { journal = record s.journal { tables = others s.journal.tables } } in
      let (r, s') = on_journal (create lower conn path title [] none) seen in on_race r s'
  upsert_found conn others path title (err e) s = (err e, s)

  unfoldable pub upsert_topic : Conn → (Tables → Tables) → Text → Text → Work Bool
  unfolding get_id create
  upsert_topic conn others path title s =
      let (r, s') = on_journal (get_id lower conn path) s in
      upsert_found conn others path title r s'

  -- The append loop; `drawn` gives the nonces of each entry.
  unfoldable pub append_entries : Conn → (ℕ → ℕ → Bytes) → ℕ → Text → List ExtractedEntry → Work ℕ
  unfolding append
  append_entries conn drawn n path [] = pure 0
  append_entries conn drawn n path (e ∷ es) = do
    on_journal (
        append aead cipher lower conn (drawn n 0) (drawn n 1) path e.content (some e.reasoning)
          e.tags e.entry_date)
    rest ← append_entries conn drawn (n + 1) path es
    pure (rest + 1)

module _ (record_audit : Conn → Audit → Exec (Unit {0})) where
  -- The audit row of a job whose row was changed.
  abbrev pub audit_if : Bool → Conn → Audit → Work (Unit {0})
  audit_if false conn a = pure tt
  audit_if true conn a = on_journal (record_audit conn a)

  abbrev pub complete_job : Conn → ℕ → Option ℕ → ℕ → (topics entries cents : ℕ) → Work (Unit {0})
  complete_job conn user none conversation_id topics entries cents = pure tt
  complete_job conn user (some job) conversation_id topics entries cents = do
    updated ← on_jobs (mark_completed conn job topics entries cents)
    audit_if updated conn (
        audit_of user job_completed job
          (("conversation_id", number conversation_id) ∷ ("entries_created", number entries) ∷ []))

  unfoldable pub mark_skipped_no_topic : Context → ℕ → Option ℕ → ℕ → Work (Unit {0})
  unfolding mark_processed mark_completed
  mark_skipped_no_topic ctx user job conversation_id =
      scoped (ctx.connects skipping) (ctx.commits skipping) (
        on_journal (mark_processed ctx.conn conversation_id)
        >> complete_job ctx.conn user job conversation_id 0 0 0)

  -- Every exception of it is logged and swallowed.
  abbrev pub swallow : Work (Unit {0}) → Work (Unit {0})
  swallow m s = let (r, s') = m s in (ok tt, s')

  unfoldable pub mark_job_failed : Context → ℕ → ℕ → ℕ → (error_code : String) → Work (Unit {0})
  unfolding mark_failed
  mark_job_failed ctx user job conversation_id error_code = swallow (
      scoped (ctx.connects failing) (ctx.commits failing) (
        on_jobs (mark_failed ctx.conn job error_code) >>= λ updated. audit_if updated ctx.conn (
          audit_of user job_failed job (
            ("error_code", text (codes error_code))
            ∷ ("conversation_id", number conversation_id)
            ∷ []))))

  module _ (aead : Aead) (cipher : ContentCipher) (lower : Text → Text) where
    abbrev pub phase_1_rest : Conn → Option ℕ → ℕ → Bool → Work Phase1
    phase_1_rest conn job conversation_id true = pure already_processed
    phase_1_rest conn job conversation_id false = do
      period ← start_job conn job
      note_period job period
      conversation ← load_conversation_for_extraction aead cipher lower conn conversation_id
      pure (loaded period conversation)

    -- Phase 1: conn1.
    unfoldable pub phase_1 : Context → Option ℕ → ℕ → Work Phase1
    unfolding check_idempotent mark_running get_period_start read_conversation_by_id list_all
    phase_1 ctx job conversation_id =
        scoped (ctx.connects loading) (ctx.commits loading)
          (check_idempotent ctx.conn conversation_id >>= phase_1_rest ctx.conn job conversation_id)

    unfoldable pub persist_extraction :
        Context
        → (Tables → Tables)
        → (drawn : ℕ → ℕ → Bytes) → (attempt : Text) → (user : ℕ) → Option ℕ
        → (conversation_id : ℕ) → (topic_path : Text) → Categorization
        → List ExtractedEntry
        → (cents_spent : ℕ) → Work ℕ
    unfolding upsert_topic append_entries mark_processed mark_completed
    persist_extraction ctx others drawn attempt user job conversation_id topic_path categorization
          entries cents_spent =
        do
          created ←
              upsert_topic aead cipher lower ctx.conn others topic_path categorization.topic_title
          entries_created ← append_entries aead cipher lower ctx.conn drawn 0 topic_path entries
          on_journal (mark_processed ctx.conn conversation_id)
          on_journal (
              record_audit ctx.conn (
                audit_of user conversation_extracted conversation_id (
                  ("via", text (codes "extraction-worker"))
                  ∷ ("entries_created", number entries_created)
                  ∷ ("topics_touched", number 1)
                  ∷ ("extraction_attempt_id", text attempt)
                  ∷ [])))
          complete_job ctx.conn user job conversation_id (topics_created_count created)
              entries_created cents_spent
          pure entries_created
