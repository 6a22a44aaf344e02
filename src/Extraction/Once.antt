-- ===== src/Extraction/Once.antt =====
-- However often the extraction of a conversation runs, its entries are written at most once.
use gubbi.Prelude.{ℕ, ◌+◌, ◌≡◌, refl, Bool, true, false, Option, none, some, List}
use gubbi.Pg.{Conn}
use gubbi.Crypto.Utf8.{Bytes, Text}
use gubbi.Crypto.Cipher.{Aead, ContentCipher}
use gubbi.Validation.Topic.{harden_llm_topic_path}
use gubbi.Journal.Store.{Tables, Session, Audit, Exec}
use gubbi.Journal.Keeps.{Keeps, conversations_of}
use gubbi.Journal.Conversations.Status.{mark_processed}
use gubbi.Extraction.Worker.{
  Categorization, ExtractedEntry, LlmMessage, State, Context, of_result, on_journal, ◌>>◌, pure,
}
use gubbi.Extraction.Persist.{
  Phase1, already_processed, loaded, phase_1, complete_job, topics_created_count, check_idempotent,
  mark_skipped_no_topic, upsert_topic, append_entries, persist_extraction,
}
use gubbi.Extraction.Extract.{
  Run, Outcome, returned, extracted, persist, phase_3, extract_under, phase_2, attempt, cents_of,
  set_period, elapse, record_actual_cost,
}
use gubbi.Extraction.Keeps.{WorkKeeps, stored, work_of_result}
use gubbi.Extraction.Kept.{
  work_rules, complete_job-WorkKeeps, check_idempotent-WorkKeeps, phase_1-WorkKeeps,
  append_entries-WorkKeeps, upsert_topic-WorkKeeps,
}
use gubbi.Extraction.RunKept.{settle_with-WorkKeeps, set_period-WorkKeeps}
use gubbi.Extraction.Triples.{
  Triple, triple_keeps, triple_savepoint, triple_scoped, triple_scoped_value, triple_bind,
  triple_any,
}
use gubbi.Extraction.Marks.{
  Exists, Processed, mark_processed-Exists, mark_processed-Processed, mark_processed-Triple,
  check_idempotent-Triple,
}

-- What leaves the try block: a summary that says it was skipped, or a processed conversation.
abbrev pub Ends : Option ℕ → ℕ → Outcome → State → Type 0
Ends tenant i (returned summary) s = summary.skipped ≡ true
Ends tenant i (extracted summary) s = Processed tenant i (stored s)

abbrev pub IsSkipped : Outcome → Type 0
IsSkipped (returned summary) = summary.skipped ≡ true
IsSkipped (extracted summary) = ⊥

-- An audit writes its own table only.
abbrev pub AuditOnly : (Conn → Audit → Exec (Unit {0})) → Type 0
AuditOnly record_audit =
    (conn : Conn) (a : Audit) (s : Session)
    → conversations_of (record_audit conn a s).1 ≡ conversations_of s

module _ (record_audit : Conn → Audit → Exec (Unit {0})) (audit_only : AuditOnly record_audit)
    (tenant : Option ℕ) (meanwhile others : Tables → Tables)
    (meanwhile_exists : (i : ℕ) (t : Tables)
      → Exists tenant i t.conversations
      → Exists tenant i (meanwhile t).conversations)
    (others_exists : (i : ℕ) (t : Tables)
      → Exists tenant i t.conversations
      → Exists tenant i (others t).conversations)
    (aead : Aead) (cipher : ContentCipher) (lower : Text → Text) where
  pub audit-Exists :
      (i : ℕ) (conn : Conn) (a : Audit) → Keeps (Exists tenant i) (record_audit conn a)
  audit-Exists i conn a s h = rw (audit_only conn a s) h

  pub audit-Processed :
      (i : ℕ) (conn : Conn) (a : Audit) → Keeps (Processed tenant i) (record_audit conn a)
  audit-Processed i conn a s h = rw (audit_only conn a s) h

  close-WorkKeeps :
      (i : ℕ) (conn : Conn) (a : Audit) (user : ℕ) (job : Option ℕ) (topics n cents : ℕ)
      → WorkKeeps (Processed tenant i) (
          on_journal (record_audit conn a)
          >> (complete_job record_audit conn user job i topics n cents >> pure n))
  close-WorkKeeps i conn a user job topics n cents =
      search (work_rules, audit-Processed, complete_job-WorkKeeps, mark_processed-Processed) depth
        20

  -- The end of Phase 3: the mark, and what follows it.
  persist_extraction-Triple :
      (ctx : Context) (drawn : ℕ → ℕ → Bytes) (id : Text) (user : ℕ) (job : Option ℕ) (i : ℕ)
      (path : Text) (c : Categorization) (es : List ExtractedEntry) (cents : ℕ)
      → ctx.conn.tenant ≡ tenant
      → Triple
          (λ s. Exists tenant i (stored s))
          (persist_extraction record_audit aead cipher lower ctx others drawn id user job i path c
            es cents)
          (λ _ s. Processed tenant i (stored s))
  unfolding persist_extraction
  persist_extraction-Triple ctx drawn id user job i path c es cents same =
      triple_bind E (λ _. E) D (upsert_topic aead cipher lower ctx.conn others path c.topic_title) _
        (triple_keeps (Exists tenant i) _ (
          upsert_topic-WorkKeeps (Exists tenant i) lower others (others_exists i) aead cipher
            ctx.conn path c.topic_title))
        λ created.
          triple_bind E (λ _. E) D (append_entries aead cipher lower ctx.conn drawn 0 path es) _
            (triple_keeps (Exists tenant i) _ (
              append_entries-WorkKeeps (Exists tenant i) aead cipher lower ctx.conn drawn 0 path
                es))
            λ n.
              triple_bind E D D (on_journal (mark_processed ctx.conn i)) _
                (mark_processed-Triple tenant i ctx.conn same)
                λ _.
                  triple_keeps (Processed tenant i) _
                    (close-WorkKeeps i ctx.conn _ user job (topics_created_count created) n cents)
    where
      E : State → Type 0
      E s = Exists tenant i (stored s)

      D : {A : Type 0} → A → State → Type 0
      D a s = Processed tenant i (stored s)

  module _ (run : Run) (same : run.ctx.conn.tenant ≡ tenant) where
    persist-Triple :
        (input output cents : ℕ) (path : Text) (c : Categorization) (es : List ExtractedEntry)
        (b : Bool)
        → Triple
            (λ s. Exists tenant run.conversation_id (stored s))
            (persist aead cipher lower record_audit meanwhile others run input output cents path c
              es b)
            (Ends tenant run.conversation_id)
    persist-Triple input output cents path c es true = λ s h. refl
    persist-Triple input output cents path c es false =
        triple_bind (λ s. Exists tenant run.conversation_id (stored s))
          (λ _ s. Processed tenant run.conversation_id (stored s)) (Ends tenant run.conversation_id)
          (persist_extraction record_audit aead cipher lower run.ctx others run.drawn run.attempt
            run.user run.job run.conversation_id path c es cents)
          _
          (persist_extraction-Triple run.ctx run.drawn run.attempt run.user run.job
            run.conversation_id path c es cents same)
          λ created.
            triple_bind (λ s. Processed tenant run.conversation_id (stored s))
              (λ _ s. Processed tenant run.conversation_id (stored s))
              (Ends tenant run.conversation_id) (record_actual_cost run.ctx cents) _
              (triple_keeps (Processed tenant run.conversation_id) _ (
                settle_with-WorkKeeps (Processed tenant run.conversation_id) run.ctx.helper cents
                  run.ctx.pre_charge_cents))
              λ _ s h. h

    phase_3-Triple :
        (input output cents : ℕ) (path : Text) (c : Categorization) (es : List ExtractedEntry)
        → Triple
            (λ s. Exists tenant run.conversation_id (stored s))
            (phase_3 aead cipher lower record_audit meanwhile others run input output cents path c
              es)
            (Ends tenant run.conversation_id)
    unfolding phase_3
    phase_3-Triple input output cents path c es =
        triple_scoped (λ s. Exists tenant run.conversation_id (stored s)) _ _ _
          (Ends tenant run.conversation_id)
          (triple_savepoint (λ s. Exists tenant run.conversation_id (stored s)) _
            (Ends tenant run.conversation_id)
            (triple_bind (λ s. Exists tenant run.conversation_id (stored s))
              (λ _ s. Exists tenant run.conversation_id (stored s))
              (Ends tenant run.conversation_id) (check_idempotent run.ctx.conn run.conversation_id)
              _
              (triple_keeps (Exists tenant run.conversation_id) _ (
                check_idempotent-WorkKeeps (Exists tenant run.conversation_id) record_audit
                  (audit-Exists run.conversation_id)
                  (mark_processed-Exists tenant run.conversation_id) run.ctx.conn
                  run.conversation_id))
              (persist-Triple input output cents path c es)))

    extract_under-Triple :
        (c : Categorization) (messages : List LlmMessage) (path : Option Text)
        → Triple
            (λ s. Exists tenant run.conversation_id (stored s))
            (extract_under aead cipher lower record_audit meanwhile others run c messages path)
            (Ends tenant run.conversation_id)
    extract_under-Triple c messages none =
        triple_bind (λ s. Exists tenant run.conversation_id (stored s)) (λ _ _. Unit {0})
          (Ends tenant run.conversation_id)
          (mark_skipped_no_topic record_audit run.ctx run.user run.job run.conversation_id) _
          (triple_any _ _)
          λ _.
            triple_bind (λ _. Unit {0}) (λ _ _. Unit {0}) (Ends tenant run.conversation_id)
              (record_actual_cost run.ctx 0) _ (triple_any _ _) λ _ s h. refl
    extract_under-Triple c messages (some path) =
        triple_bind (λ s. Exists tenant run.conversation_id (stored s))
          (λ _ s. Exists tenant run.conversation_id (stored s)) (Ends tenant run.conversation_id)
          (of_result (run.ctx.service.extract_entries messages path)) _
          (triple_keeps (Exists tenant run.conversation_id) _ (
            work_of_result (Exists tenant run.conversation_id)
              (run.ctx.service.extract_entries messages path)))
          λ extraction.
            triple_bind (λ s. Exists tenant run.conversation_id (stored s))
              (λ _ s. Exists tenant run.conversation_id (stored s))
              (Ends tenant run.conversation_id) (elapse meanwhile) _
              (λ s. meanwhile_exists run.conversation_id s.journal.tables)
              λ _.
                phase_3-Triple (c.input_tokens + extraction.input_tokens)
                  (c.output_tokens + extraction.output_tokens)
                  (cents_of run.ctx.service.estimate_cost_cents
                    (c.input_tokens + extraction.input_tokens)
                    (c.output_tokens + extraction.output_tokens))
                  path c extraction.entries

    phase_2-Triple :
        (p : Phase1)
        → Triple
            (λ s. Exists tenant run.conversation_id (stored s))
            (phase_2 aead cipher lower record_audit meanwhile others run p)
            (Ends tenant run.conversation_id)
    phase_2-Triple already_processed = λ s h. refl
    phase_2-Triple (loaded period conversation) =
        triple_bind (λ s. Exists tenant run.conversation_id (stored s))
          (λ _ s. Exists tenant run.conversation_id (stored s)) (Ends tenant run.conversation_id)
          (set_period period) _
          (triple_keeps (Exists tenant run.conversation_id) _
            (set_period-WorkKeeps (Exists tenant run.conversation_id) period))
          λ _.
            triple_bind (λ s. Exists tenant run.conversation_id (stored s))
              (λ _ s. Exists tenant run.conversation_id (stored s))
              (Ends tenant run.conversation_id)
              (of_result (
                run.ctx.service.categorize_conversation conversation.messages
                  conversation.existing_topics))
              _
              (triple_keeps (Exists tenant run.conversation_id) _ (
                work_of_result (Exists tenant run.conversation_id) (
                  run.ctx.service.categorize_conversation conversation.messages
                    conversation.existing_topics)))
              λ c.
                extract_under-Triple c conversation.messages
                  (harden_llm_topic_path lower c.topic_path)

    pub attempt-Triple :
        Triple
          (λ s. Exists tenant run.conversation_id (stored s))
          (attempt aead cipher lower record_audit meanwhile others run)
          (Ends tenant run.conversation_id)
    unfolding attempt
    attempt-Triple =
        triple_bind (λ s. Exists tenant run.conversation_id (stored s))
          (λ _ s. Exists tenant run.conversation_id (stored s)) (Ends tenant run.conversation_id)
          (phase_1 record_audit aead cipher lower run.ctx run.job run.conversation_id) _
          (triple_keeps (Exists tenant run.conversation_id) _ (
            phase_1-WorkKeeps (Exists tenant run.conversation_id) record_audit
              (audit-Exists run.conversation_id) (mark_processed-Exists tenant run.conversation_id)
              aead cipher lower run.ctx run.job run.conversation_id))
          phase_2-Triple

    -- A processed conversation is skipped in Phase 1.
    pub attempt_again-Triple :
        Triple
          (λ s. Processed tenant run.conversation_id (stored s))
          (attempt aead cipher lower record_audit meanwhile others run)
          (λ o _. IsSkipped o)
    unfolding attempt phase_1
    attempt_again-Triple =
        triple_bind (λ s. Processed tenant run.conversation_id (stored s))
          (λ p _. p ≡ already_processed) (λ o _. IsSkipped o)
          (phase_1 record_audit aead cipher lower run.ctx run.job run.conversation_id) _
          (triple_scoped_value (λ s. Processed tenant run.conversation_id (stored s)) _ _ _
            (λ p. p ≡ already_processed)
            (triple_bind (λ s. Processed tenant run.conversation_id (stored s)) (λ b _. b ≡ true)
              (λ p _. p ≡ already_processed) (check_idempotent run.ctx.conn run.conversation_id) _
              (check_idempotent-Triple tenant run.conversation_id run.ctx.conn same)
              (λ b s h. rw h refl)))
          (λ p s h. rw h refl)
