-- ===== src/Extraction/RunKept.antt =====
-- A whole run keeps what its statements keep of the conversations' table, and whether one is processed.
use gubbi.Prelude.{ℕ, Bool, true, false, Option, none, some, List}
use gubbi.Pg.{Conn}
use gubbi.Crypto.Utf8.{Bytes, Text}
use gubbi.Crypto.Cipher.{Aead, ContentCipher}
use gubbi.Journal.Store.{Conversation, Tables, Audit, Error, Result, ok, err, Exec}
use gubbi.Journal.Keeps.{Keeps}
use gubbi.Journal.Conversations.Status.{mark_processed}
use gubbi.Extraction.Worker.{Categorization, ExtractedEntry, LlmMessage, Context, persisting, raise}
use gubbi.Extraction.Persist.{Phase1, already_processed, loaded, persist_extraction}
use gubbi.Extraction.Extract.{
  Summary, Run, Outcome, returned, extracted, settle_with, set_period, persist, phase_3, elapse,
  extract_under, phase_2, attempt, refund_if_known, refund_on_failure, fail_job, on_failure,
  publish_progress, conclude, begin, extract_conversation,
}
use gubbi.Extraction.Keeps.{WorkKeeps, work_pure, work_savepoint, work_scoped, work_bind}
use gubbi.Extraction.Kept.{
  work_rules, complete_job-WorkKeeps, mark_skipped_no_topic-WorkKeeps, mark_job_failed-WorkKeeps,
  check_idempotent-WorkKeeps, phase_1-WorkKeeps, append_entries-WorkKeeps, upsert_topic-WorkKeeps,
}

module _ (P : List Conversation → Type 0) where
  raise-WorkKeeps : (A : Type 0) (e : Error) → WorkKeeps P (raise {A = A} e)
  raise-WorkKeeps A e s h = h

  pub settle_with-WorkKeeps :
      (helper : Option Bool) (actual estimated : ℕ)
      → WorkKeeps P (settle_with helper actual estimated)
  settle_with-WorkKeeps none actual estimated s h = h
  settle_with-WorkKeeps (some false) actual estimated s h = h
  settle_with-WorkKeeps (some true) actual estimated s h = h

  pub set_period-WorkKeeps : (period : Option ℕ) → WorkKeeps P (set_period period)
  set_period-WorkKeeps none s h = h
  set_period-WorkKeeps (some p) s h = h

  refund_if_known-WorkKeeps : (b : Bool) (ctx : Context) → WorkKeeps P (refund_if_known b ctx)
  refund_if_known-WorkKeeps true ctx = settle_with-WorkKeeps ctx.helper 0 ctx.pre_charge_cents
  refund_if_known-WorkKeeps false ctx = λ s h. h

  refund_on_failure-WorkKeeps :
      (helper : Option Bool) (ctx : Context) → WorkKeeps P (refund_on_failure helper ctx)
  refund_on_failure-WorkKeeps none ctx s h = h
  refund_on_failure-WorkKeeps (some works) ctx s h =
      refund_if_known-WorkKeeps s.period_start_known ctx s h

  publish_progress-WorkKeeps :
      (b : Bool) (topic : Option Text) (n : ℕ) → WorkKeeps P (publish_progress b topic n)
  publish_progress-WorkKeeps true topic n s h = h
  publish_progress-WorkKeeps false topic n s h = h

module _ (P : List Conversation → Type 0) (record_audit : Conn → Audit → Exec (Unit {0}))
    (audit_keeps : (conn : Conn) (a : Audit) → Keeps P (record_audit conn a))
    (mark_keeps : (conn : Conn) (i : ℕ) → Keeps P (mark_processed conn i))
    (meanwhile others : Tables → Tables)
    (meanwhile_keeps : (t : Tables) → P t.conversations → P (meanwhile t).conversations)
    (others_keep : (t : Tables) → P t.conversations → P (others t).conversations) (aead : Aead)
    (cipher : ContentCipher) (lower : Text → Text) where
  pub persist_extraction-WorkKeeps :
      (ctx : Context) (drawn : ℕ → ℕ → Bytes) (attempt : Text) (user : ℕ) (job : Option ℕ) (i : ℕ)
      (path : Text) (c : Categorization) (es : List ExtractedEntry) (cents : ℕ)
      → WorkKeeps P (
          persist_extraction record_audit aead cipher lower ctx others drawn attempt user job i path
            c es cents)
  unfolding persist_extraction
  persist_extraction-WorkKeeps ctx drawn attempt user job i path c es cents =
      search
        (
          work_rules, upsert_topic-WorkKeeps, append_entries-WorkKeeps, mark_keeps, audit_keeps,
          complete_job-WorkKeeps, others_keep,
        )
        depth 20

  persist-WorkKeeps :
      (run : Run) (input output cents : ℕ) (path : Text) (c : Categorization)
      (es : List ExtractedEntry) (b : Bool)
      → WorkKeeps P (
          persist aead cipher lower record_audit meanwhile others run input output cents path c es
            b)
  persist-WorkKeeps run input output cents path c es true = λ s h. h
  persist-WorkKeeps run input output cents path c es false =
      search (work_rules, persist_extraction-WorkKeeps, settle_with-WorkKeeps) depth 20

  phase_3-WorkKeeps :
      (run : Run) (input output cents : ℕ) (path : Text) (c : Categorization)
      (es : List ExtractedEntry)
      → WorkKeeps P
          (phase_3 aead cipher lower record_audit meanwhile others run input output cents path c es)
  unfolding phase_3
  phase_3-WorkKeeps run input output cents path c es =
      work_scoped P (run.ctx.connects persisting) (run.ctx.commits persisting) _ (
        work_savepoint P _ (
          work_bind P _ _
            (check_idempotent-WorkKeeps P record_audit audit_keeps mark_keeps run.ctx.conn
              run.conversation_id)
            (persist-WorkKeeps run input output cents path c es)))

  pub elapse-WorkKeeps : WorkKeeps P (elapse meanwhile)
  elapse-WorkKeeps s h = meanwhile_keeps s.journal.tables h

  extract_under-WorkKeeps :
      (run : Run) (c : Categorization) (messages : List LlmMessage) (path : Option Text)
      → WorkKeeps P
          (extract_under aead cipher lower record_audit meanwhile others run c messages path)
  extract_under-WorkKeeps run c messages none =
      search (work_rules, mark_skipped_no_topic-WorkKeeps, settle_with-WorkKeeps, mark_keeps) depth
        20
  extract_under-WorkKeeps run c messages (some path) =
      search (work_rules, elapse-WorkKeeps, phase_3-WorkKeeps) depth 20

  phase_2-WorkKeeps :
      (run : Run) (p : Phase1)
      → WorkKeeps P (phase_2 aead cipher lower record_audit meanwhile others run p)
  phase_2-WorkKeeps run already_processed = λ s h. h
  phase_2-WorkKeeps run (loaded period conversation) =
      search (work_rules, set_period-WorkKeeps, extract_under-WorkKeeps) depth 20

  attempt-WorkKeeps :
      (run : Run) → WorkKeeps P (attempt aead cipher lower record_audit meanwhile others run)
  unfolding attempt
  attempt-WorkKeeps run =
      work_bind P _ _
        (phase_1-WorkKeeps P record_audit audit_keeps mark_keeps aead cipher lower run.ctx run.job
          run.conversation_id)
        (phase_2-WorkKeeps run)

  fail_job-WorkKeeps :
      (job : Option ℕ) (run : Run) (e : Error) → WorkKeeps P (fail_job record_audit job run e)
  fail_job-WorkKeeps none run e = λ s h. h
  fail_job-WorkKeeps (some job) run e =
      mark_job_failed-WorkKeeps P record_audit audit_keeps mark_keeps run.ctx run.user job
        run.conversation_id _

  on_failure-WorkKeeps : (run : Run) (e : Error) → WorkKeeps P (on_failure record_audit run e)
  unfolding on_failure
  on_failure-WorkKeeps run e =
      search (work_rules, refund_on_failure-WorkKeeps, fail_job-WorkKeeps, raise-WorkKeeps) depth 20

  pub conclude-WorkKeeps :
      (run : Run) (r : Result Outcome)
      → WorkKeeps P (conclude aead cipher lower record_audit meanwhile others run r)
  conclude-WorkKeeps run (ok (returned summary)) s h = h
  conclude-WorkKeeps run (ok (extracted summary)) s h =
      work_bind P {A = Unit {0}} {B = Summary}
        (publish_progress run.ctx.redis_works summary.topic_path summary.entries_created) _
        (publish_progress-WorkKeeps P run.ctx.redis_works summary.topic_path
          summary.entries_created)
        (λ _. work_pure P summary) s h
  conclude-WorkKeeps run (err e) s h = on_failure-WorkKeeps run e s h

  pub extract_conversation-WorkKeeps :
      (run : Run)
      → WorkKeeps P (extract_conversation aead cipher lower record_audit meanwhile others run)
  unfolding extract_conversation
  extract_conversation-WorkKeeps run s h =
      let (r, s') = attempt aead cipher lower record_audit meanwhile others run (begin run s) in
      conclude-WorkKeeps run r s' (attempt-WorkKeeps run (begin run s) h)
