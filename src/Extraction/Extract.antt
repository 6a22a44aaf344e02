-- ===== src/Extraction/Extract.antt =====
-- extract_conversation of gubbi/extraction/jobs/extract_conversation.py.
use gubbi.Prelude.{ℕ, suc, ◌+◌, Bool, true, false, Option, none, some, List, ◌∷◌}
use gubbi.Pg.{Conn}
use gubbi.Crypto.Utf8.{Bytes, Text}
use gubbi.Crypto.Cipher.{Aead, ContentCipher}
use gubbi.Validation.Topic.{harden_llm_topic_path}
use gubbi.Journal.Store.{Tables, Audit, Error, Result, ok, err, Exec}
use gubbi.Extraction.Worker.{
  Categorization, ExtractedEntry, LlmMessage, State, Work, pure, raise, of_result, ◌>>=◌, ◌>>◌,
  scoped, savepoint, Context, persisting, classify_error,
}
use gubbi.Extraction.Persist.{
  check_idempotent, Phase1, already_processed, loaded, phase_1, mark_skipped_no_topic,
  mark_job_failed, persist_extraction,
}

-- The dict that a run returns.
pub record Summary : Type 0 where
  pub topic_path : Option Text
  pub entries_created : ℕ
  pub input_tokens : ℕ
  pub output_tokens : ℕ
  pub cents_spent : ℕ
  pub skipped : Bool

abbrev pub skip : (input output cents : ℕ) → Summary
skip input output cents = record {
  topic_path = none;
  entries_created = 0;
  input_tokens = input;
  output_tokens = output;
  cents_spent = cents;
  skipped = true;
}

-- `helper.record_actual_cost`, whose exceptions are logged: nothing without a helper, or where it raises.
abbrev pub settle_with : Option Bool → ℕ → ℕ → Work (Unit {0})
settle_with none actual estimated s = (ok tt, s)
settle_with (some false) actual estimated s = (ok tt, s)
settle_with (some true) actual estimated s = (
  ok tt,
  record s {
    settlements =
        record {
          period_start = s.effective_period_start;
          actual_cents = actual;
          estimated_cents = estimated;
        }
        ∷ s.settlements;
  },
)

abbrev pub record_actual_cost : Context → ℕ → Work (Unit {0})
record_actual_cost ctx actual = settle_with ctx.helper actual ctx.pre_charge_cents

-- `effective_period_start = job_period_start or effective_period_start`.
abbrev pub set_period : Option ℕ → Work (Unit {0})
set_period none s = (ok tt, s)
set_period (some p) s = (ok tt, record s { effective_period_start = p })

abbrev pub cost_or_zero : Result ℕ → ℕ
cost_or_zero (ok cents) = cents
cost_or_zero (err e) = 0

abbrev pub cents_of : Option (ℕ → ℕ → Result ℕ) → ℕ → ℕ → ℕ
cents_of none input output = 0
cents_of (some estimate) input output = cost_or_zero (estimate input output)

-- The refund of the except clause.
abbrev pub refund_if_known : Bool → Context → Work (Unit {0})
refund_if_known true ctx s = record_actual_cost ctx 0 s
refund_if_known false ctx s = (ok tt, record s { skipped_refunds = suc s.skipped_refunds })

abbrev pub refund_on_failure : Option Bool → Context → Work (Unit {0})
refund_on_failure none ctx s = (ok tt, s)
refund_on_failure (some works) ctx s = refund_if_known s.period_start_known ctx s

-- _publish_progress, which swallows every exception.
abbrev pub publish_progress : Bool → Option Text → ℕ → Work (Unit {0})
publish_progress false topic entries s = (ok tt, s)
publish_progress true topic entries s = (ok tt, record s { events = (topic, entries) ∷ s.events })

-- What leaves the try block: an early return, or the entries that were persisted.
pub data Outcome : Type 0 where
  returned extracted : Summary → Outcome

-- One run: the conversation, its user, the job (None for 'unknown'), the attempt's identifier, and the
-- nonces of the entries.
pub record Run : Type 0 where
  pub ctx : Context
  pub user : ℕ
  pub job : Option ℕ
  pub conversation_id : ℕ
  pub attempt : Text
  pub drawn : ℕ → ℕ → Bytes

-- What other sessions commit while the LLM answers.
abbrev pub elapse : (Tables → Tables) → Work (Unit {0})
elapse meanwhile s =
    (ok tt, record s { journal = record s.journal { tables = meanwhile s.journal.tables } })

-- The local variables are bound anew in each run.
abbrev pub begin : Run → State → State
begin run s = record s {
  effective_period_start = run.ctx.current_period_start;
  period_start_known = elim run.job [ none ↦ true | some _ ↦ false ];
}

module _ (record_audit : Conn → Audit → Exec (Unit {0})) where
  abbrev pub fail_job : Option ℕ → Run → Error → Work (Unit {0})
  fail_job none run e = pure tt
  fail_job (some job) run e =
      mark_job_failed record_audit run.ctx run.user job run.conversation_id (classify_error e)

  -- The except clause, which raises the exception again.
  unfoldable pub on_failure : Run → Error → Work Summary
  unfolding mark_job_failed
  on_failure run e = refund_on_failure run.ctx.helper run.ctx >> fail_job run.job run e >> raise e

module _ (aead : Aead) (cipher : ContentCipher) (lower : Text → Text)
    (record_audit : Conn → Audit → Exec (Unit {0}))
    -- What other sessions commit while the LLM answers, and inside Phase 3.
    (meanwhile others : Tables → Tables) where
  -- Phase 3 behind the second check.
  abbrev pub persist :
      Run
      → (input output cents : ℕ) → Text
      → Categorization
      → List ExtractedEntry
      → Bool
      → Work Outcome
  persist run input output cents path categorization entries true =
      pure (returned (skip input output cents))
  persist run input output cents path categorization entries false = do
    created ←
        persist_extraction record_audit aead cipher lower run.ctx others run.drawn run.attempt
          run.user run.job run.conversation_id path categorization entries cents
    record_actual_cost run.ctx cents
    let summary : Summary = record {
      topic_path = some path;
      entries_created = created;
      input_tokens = input;
      output_tokens = output;
      cents_spent = cents;
      skipped = false;
    }
    pure (extracted summary)

  unfoldable pub phase_3 :
      Run → (input output cents : ℕ) → Text → Categorization → List ExtractedEntry → Work Outcome
  unfolding check_idempotent persist_extraction
  phase_3 run input output cents path categorization entries =
      scoped (run.ctx.connects persisting) (run.ctx.commits persisting) (
        savepoint (
          check_idempotent run.ctx.conn run.conversation_id
          >>= persist run input output cents path categorization entries))

  -- Behind the categorisation: no usable topic, or the extraction.
  abbrev pub extract_under : Run → Categorization → List LlmMessage → Option Text → Work Outcome
  extract_under run categorization messages none = do
    mark_skipped_no_topic record_audit run.ctx run.user run.job run.conversation_id
    record_actual_cost run.ctx 0
    pure (returned (skip categorization.input_tokens categorization.output_tokens 0))
  extract_under run categorization messages (some path) = do
    extraction ← of_result (run.ctx.service.extract_entries messages path)
    elapse meanwhile
    let input = categorization.input_tokens + extraction.input_tokens
    let output = categorization.output_tokens + extraction.output_tokens
    phase_3 run input output (cents_of run.ctx.service.estimate_cost_cents input output) path
        categorization extraction.entries

  -- Phase 2.
  abbrev pub phase_2 : Run → Phase1 → Work Outcome
  phase_2 run already_processed = pure (returned (skip 0 0 0))
  phase_2 run (loaded period conversation) = do
    set_period period
    categorization ←
        of_result (
          run.ctx.service.categorize_conversation conversation.messages
            conversation.existing_topics)
    extract_under run categorization conversation.messages
        (harden_llm_topic_path lower categorization.topic_path)

  -- The body of the try block.
  unfoldable pub attempt : Run → Work Outcome
  unfolding phase_1 mark_skipped_no_topic phase_3 harden_llm_topic_path
  attempt run =
      phase_1 record_audit aead cipher lower run.ctx run.job run.conversation_id >>= phase_2 run

  abbrev pub conclude : Run → Result Outcome → Work Summary
  conclude run (ok (returned summary)) s = (ok summary, s)
  conclude run (ok (extracted summary)) s =
      (publish_progress run.ctx.redis_works summary.topic_path summary.entries_created
          >> pure summary)
        s
  conclude run (err e) s = on_failure record_audit run e s

  unfoldable pub extract_conversation : Run → Work Summary
  unfolding attempt on_failure
  extract_conversation run s = let (r, s') = attempt run (begin run s) in conclude run r s'
