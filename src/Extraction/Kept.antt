-- ===== src/Extraction/Kept.antt =====
-- A run keeps what its statements keep of the conversations' table, whatever fails.
use gubbi.Prelude.{ℕ, ◌+◌, String, Bool, true, false, Option, none, some, List, [], ◌∷◌, arith}
use gubbi.Pg.{Conn}
use gubbi.Crypto.Utf8.{Bytes, Text}
use gubbi.Crypto.Cipher.{Aead, ContentCipher}
use gubbi.Journal.Store.{Conversation, Tables, Audit, Result, ok, err, Exec, topic_not_found}
use gubbi.Journal.Keeps.{Keeps}
use gubbi.Journal.Kept.{
  get_id-Keeps, create-Keeps, list_all-Keeps, get_processed_at-Keeps, append-Keeps,
  read_conversation_by_id-Keeps,
}
use gubbi.Journal.Topics.{get_id, create}
use gubbi.Journal.Conversations.Status.{mark_processed}
use gubbi.Extraction.Worker.{ExtractedEntry, on_journal, Context}
use gubbi.Extraction.Persist.{
  check_idempotent, start_job, note_period, audit_if, complete_job, mark_skipped_no_topic,
  mark_job_failed, phase_1_rest, phase_1, on_race, upsert_found, upsert_topic, append_entries,
}
use gubbi.Extraction.Keeps.{
  WorkKeeps, stored, work_pure, work_of_result, work_on_journal, work_on_jobs, work_savepoint,
  work_scoped, work_bind,
}

pub ruleset work_rules = (
  work_bind, work_pure, work_of_result, work_on_journal, work_on_jobs, work_scoped, work_savepoint,
)

module _ (P : List Conversation → Type 0) where
  on_race-WorkKeeps : (r : Result ℕ) → WorkKeeps P (on_race r)
  on_race-WorkKeeps (ok i) s h = h
  on_race-WorkKeeps (err e) s h = ground arith

  module _ (aead : Aead) (cipher : ContentCipher) (lower : Text → Text) where
    pub append_entries-WorkKeeps :
        (conn : Conn) (drawn : ℕ → ℕ → Bytes) (n : ℕ) (path : Text) (es : List ExtractedEntry)
        → WorkKeeps P (append_entries aead cipher lower conn drawn n path es)
    unfolding append_entries
    append_entries-WorkKeeps conn drawn n path [] = work_pure P {A = ℕ} 0
    append_entries-WorkKeeps conn drawn n path (e ∷ es) =
        search (work_rules, append-Keeps, append_entries-WorkKeeps conn drawn (n + 1) path es) depth
          20

  module _ (lower : Text → Text) (others : Tables → Tables)
      (others_keep : (t : Tables) → P t.conversations → P (others t).conversations) where
    upsert_found-WorkKeeps :
        (aead : Aead) (cipher : ContentCipher) (conn : Conn) (path title : Text) (r : Result ℕ)
        → WorkKeeps P (upsert_found aead cipher lower conn others path title r)
    upsert_found-WorkKeeps aead cipher conn path title (ok i) s h = h
    upsert_found-WorkKeeps aead cipher conn path title (err topic_not_found) s h =
        let seen = record s { journal = record s.journal { tables = others s.journal.tables } } in
        let (r, s') = on_journal (create lower conn path title [] none) seen in
        on_race-WorkKeeps r s' (
          create-Keeps P lower conn path title [] none seen.journal
            (others_keep s.journal.tables h))
    upsert_found-WorkKeeps aead cipher conn path title (err e) s h = h

    pub upsert_topic-WorkKeeps :
        (aead : Aead) (cipher : ContentCipher) (conn : Conn) (path title : Text)
        → WorkKeeps P (upsert_topic aead cipher lower conn others path title)
    unfolding upsert_topic
    upsert_topic-WorkKeeps aead cipher conn path title s h =
        upsert_found-WorkKeeps aead cipher conn path title (on_journal (get_id lower conn path) s).0
          (on_journal (get_id lower conn path) s).1 (get_id-Keeps P lower conn path s.journal h)

module _ (P : List Conversation → Type 0) (record_audit : Conn → Audit → Exec (Unit {0}))
    (audit_keeps : (conn : Conn) (a : Audit) → Keeps P (record_audit conn a))
    (mark_keeps : (conn : Conn) (i : ℕ) → Keeps P (mark_processed conn i)) where
  audit_if-WorkKeeps :
      (b : Bool) (conn : Conn) (a : Audit) → WorkKeeps P (audit_if record_audit b conn a)
  audit_if-WorkKeeps true conn a = work_on_journal P (record_audit conn a) (audit_keeps conn a)
  audit_if-WorkKeeps false conn a = λ s h. h

  pub complete_job-WorkKeeps :
      (conn : Conn) (user : ℕ) (job : Option ℕ) (i topics entries cents : ℕ)
      → WorkKeeps P (complete_job record_audit conn user job i topics entries cents)
  complete_job-WorkKeeps conn user none i topics entries cents = λ s h. h
  complete_job-WorkKeeps conn user (some job) i topics entries cents =
      search (work_rules, audit_if-WorkKeeps)

  pub mark_skipped_no_topic-WorkKeeps :
      (ctx : Context) (user : ℕ) (job : Option ℕ) (i : ℕ)
      → WorkKeeps P (mark_skipped_no_topic record_audit ctx user job i)
  unfolding mark_skipped_no_topic
  mark_skipped_no_topic-WorkKeeps ctx user job i =
      search (work_rules, complete_job-WorkKeeps, mark_keeps)

  pub mark_job_failed-WorkKeeps :
      (ctx : Context) (user job i : ℕ) (code : String)
      → WorkKeeps P (mark_job_failed record_audit ctx user job i code)
  unfolding mark_job_failed
  mark_job_failed-WorkKeeps ctx user job i code =
      work_scoped P (ctx.connects _) (ctx.commits _) _ (search (work_rules, audit_if-WorkKeeps))

  pub check_idempotent-WorkKeeps : (conn : Conn) (i : ℕ) → WorkKeeps P (check_idempotent conn i)
  unfolding check_idempotent
  check_idempotent-WorkKeeps conn i = search (work_rules, get_processed_at-Keeps)

  note_period-WorkKeeps :
      (job : Option ℕ) (period : Option ℕ) → WorkKeeps P (note_period job period)
  note_period-WorkKeeps none period s h = h
  note_period-WorkKeeps (some j) period s h = h

  start_job-WorkKeeps : (conn : Conn) (job : Option ℕ) → WorkKeeps P (start_job conn job)
  start_job-WorkKeeps conn none = λ s h. h
  start_job-WorkKeeps conn (some j) = search work_rules

  module _ (aead : Aead) (cipher : ContentCipher) (lower : Text → Text) where
    phase_1_rest-WorkKeeps :
        (conn : Conn) (job : Option ℕ) (i : ℕ) (b : Bool)
        → WorkKeeps P (phase_1_rest record_audit aead cipher lower conn job i b)
    phase_1_rest-WorkKeeps conn job i true = λ s h. h
    phase_1_rest-WorkKeeps conn job i false =
        search
          (
            work_rules, start_job-WorkKeeps, note_period-WorkKeeps, read_conversation_by_id-Keeps,
            list_all-Keeps,
          )
          depth 20

    pub phase_1-WorkKeeps :
        (ctx : Context) (job : Option ℕ) (i : ℕ)
        → WorkKeeps P (phase_1 record_audit aead cipher lower ctx job i)
    unfolding phase_1
    phase_1-WorkKeeps ctx job i =
        search (work_rules, check_idempotent-WorkKeeps, phase_1_rest-WorkKeeps) depth 20
