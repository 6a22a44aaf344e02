-- ===== src/Extraction/Bucket.antt =====
-- The budget's bucket that a failed run refunds into.
use gubbi.Prelude.{ℕ, ◌≡◌, refl, sym, subst, ap, Bool, true, false, Option, none, some, List, ◌∷◌}
use gubbi.Pg
use gubbi.Pg.{Conn, World}
use gubbi.Crypto.Utf8.{Text}
use gubbi.Crypto.Cipher.{Aead, ContentCipher, decrypt_content_field}
use gubbi.Jobs.Table.{Job}
use gubbi.Jobs.Repository.{mark_running, get_period_start}
use gubbi.Journal.Store.{
  Topic, Conversation, Tables, ready, Audit, Error, Result, ok, err, decryption_error, Exec,
  find_row,
}
use gubbi.Journal.Conversations.{conversation_by_id}
use gubbi.Journal.Conversations.Status.{processed_time}
use gubbi.Journal.Conversations.Read.{read_conversation_by_id, topic_of}
use gubbi.Extraction.Worker.{
  State, Work, Settlement, Context, loading, continue, ◌>>=◌, raise, restore, finish, commit,
  scoped,
}
use gubbi.Extraction.Persist.{mark_job_failed, phase_1, phase_1_rest, check_idempotent}
use gubbi.Extraction.Extract.{
  Summary, Run, attempt, on_failure, fail_job, refund_on_failure, extract_conversation, begin,
  settle_with, refund_if_known, phase_2, conclude,
}
use gubbi.Extraction.Spares.{fail_job-Spares}

abbrev pub table : List Job → World Job
table js = record { rows = js; aborted = false }

abbrev pub at_work : Tables → List Job → State → State
at_work t js s = record s { journal = ready t; jobs = table js }

module _ (aead : Aead) (cipher : ContentCipher) (conn : Conn) (i : ℕ) (t : Tables)
    (c : Conversation) (found : find_row (conversation_by_id conn i) t.conversations ≡ some c)
    (in_transaction : conn.in_transaction ≡ true) where
  read_fails :
      (k : Topic)
      → topic_of conn t c ≡ some k
      → decrypt_content_field aead cipher c.title.ciphertext c.title.nonce ≡ none
      → read_conversation_by_id aead cipher conn i false (ready t) ≡ (err decryption_error, ready t)
  unfolding read_conversation_by_id
  read_fails k topic broken = rw (in_transaction, found, topic, broken) refl

step_scoped :
    {A : Type 0} (commits : Bool) (m : Work A) (s after : State) (e : Error)
    → m s ≡ (err e, after)
    → scoped true commits m s ≡ (err e, restore s after)
step_scoped true m s after e h = ap (λ r. finish false s r.0 r.1) h
step_scoped false m s after e h = ap (λ r. commit false s (finish false s r.0 r.1)) h

module _ (aead : Aead) (cipher : ContentCipher) (lower : Text → Text)
    (record_audit : Conn → Audit → Exec (Unit {0})) (meanwhile others : Tables → Tables) (run : Run)
    (job : ℕ) (t : Tables) (js js' : List Job) (s : State) where
  loading_fails :
      (period : ℕ)
      → processed_time
          (find_row (conversation_by_id run.ctx.conn run.conversation_id) t.conversations)
        ≡ none
      → mark_running run.ctx.conn job (table js) ≡ (Pg.ok tt, table js')
      → get_period_start run.ctx.conn job (table js') ≡ (Pg.ok (some period), table js')
      → read_conversation_by_id aead cipher run.ctx.conn run.conversation_id false (ready t)
        ≡ (err decryption_error, ready t)
      → (check_idempotent run.ctx.conn run.conversation_id
            >>= phase_1_rest record_audit aead cipher lower run.ctx.conn
                (some job)
                run.conversation_id)
          (at_work t js s)
        ≡ (err decryption_error, record (at_work t js' s) { period_start_known = true })
  unfolding check_idempotent
  loading_fails period fresh started read broken = rw (fresh, started, read, broken) refl

  phase_1_fails :
      (period : ℕ)
      → run.ctx.connects loading ≡ true
      → processed_time
          (find_row (conversation_by_id run.ctx.conn run.conversation_id) t.conversations)
        ≡ none
      → mark_running run.ctx.conn job (table js) ≡ (Pg.ok tt, table js')
      → get_period_start run.ctx.conn job (table js') ≡ (Pg.ok (some period), table js')
      → read_conversation_by_id aead cipher run.ctx.conn run.conversation_id false (ready t)
        ≡ (err decryption_error, ready t)
      → phase_1 record_audit aead cipher lower run.ctx
          (some job)
          run.conversation_id
          (at_work t js s)
        ≡ (err decryption_error, record (at_work t js s) { period_start_known = true })
  unfolding phase_1
  phase_1_fails period connects fresh started read broken = rw connects (
      step_scoped (run.ctx.commits loading)
        (check_idempotent run.ctx.conn run.conversation_id
          >>= phase_1_rest record_audit aead cipher lower run.ctx.conn (some job)
              run.conversation_id)
        (at_work t js s) (record (at_work t js' s) { period_start_known = true }) decryption_error
        (loading_fails period fresh started read broken))

-- What the failed attempt leaves to the except clause.
abbrev left_behind : Run → Tables → List Job → State → State
left_behind run t js s = record (at_work t js s) {
  effective_period_start = run.ctx.current_period_start;
  period_start_known = true;
}

abbrev refund : Context → State → Settlement
refund ctx s = record {
  period_start = s.effective_period_start;
  actual_cents = 0;
  estimated_cents = ctx.pre_charge_cents;
}

settle_works :
    (helper : Option Bool) (actual estimated : ℕ) (s : State)
    → helper ≡ some true
    → settle_with helper actual estimated s ≡ (
      ok tt,
      record s {
        settlements =
            record {
              period_start = s.effective_period_start;
              actual_cents = actual;
              estimated_cents = estimated;
            }
            ∷ s.settlements;
      },
    )
settle_works none actual estimated s h = cc
settle_works (some false) actual estimated s h = cc
settle_works (some true) actual estimated s h = refl

refund_known :
    (b : Bool) (ctx : Context) (s : State)
    → b ≡ true
    → ctx.helper ≡ some true
    → refund_if_known b ctx s ≡ (ok tt, record s { settlements = refund ctx s ∷ s.settlements })
refund_known true ctx s b helper = settle_works ctx.helper 0 ctx.pre_charge_cents s helper
refund_known false ctx s b helper = cc

refund_works :
    (helper : Option Bool) (ctx : Context) (s : State)
    → helper ≡ some true
    → ctx.helper ≡ some true
    → s.period_start_known ≡ true
    → refund_on_failure helper ctx s
      ≡ (ok tt, record s { settlements = refund ctx s ∷ s.settlements })
refund_works none ctx s h helper known = cc
refund_works (some works) ctx s h helper known =
    refund_known s.period_start_known ctx s known helper

module _ (record_audit : Conn → Audit → Exec (Unit {0})) where
  fail_job_returns :
      (job : Option ℕ) (run : Run) (e : Error) (s : State)
      → (fail_job record_audit job run e s).0 ≡ ok tt
  unfolding mark_job_failed
  fail_job_returns none run e s = refl
  fail_job_returns (some job) run e s = refl

  raised :
      (r : Result (Unit {0})) (e : Error) (s : State)
      → r ≡ ok tt
      → (continue r (λ _. raise {A = Summary} e) s) ≡ (err e, s)
  raised (ok u) e s h = refl
  raised (err d) e s h = cc

  -- The except clause refunds, fails the job, and raises again.
  refunded :
      (run : Run) (e : Error) (s : State)
      → run.ctx.helper ≡ some true
      → s.period_start_known ≡ true
      → ((on_failure record_audit run e s).0 ≡ err e)
        × ((on_failure record_audit run e s).1.settlements ≡ refund run.ctx s ∷ s.settlements)
  unfolding on_failure
  refunded run e s helper known =
      let paid = record s { settlements = refund run.ctx s ∷ s.settlements } in
      let failed = fail_job record_audit run.job run e paid in
      rw (refund_works run.ctx.helper run.ctx s helper helper known) (
        rw (raised failed.0 e failed.1 (fail_job_returns run.job run e paid))
          (refl, fail_job-Spares record_audit run.job run e paid))

module _ (aead : Aead) (cipher : ContentCipher) (lower : Text → Text)
    (record_audit : Conn → Audit → Exec (Unit {0})) (meanwhile others : Tables → Tables) where
  attempt_fails :
      (run : Run) (job period : ℕ) (t : Tables) (js js' : List Job) (s : State)
      → run.job ≡ some job
      → run.ctx.connects loading ≡ true
      → processed_time
          (find_row (conversation_by_id run.ctx.conn run.conversation_id) t.conversations)
        ≡ none
      → mark_running run.ctx.conn job (table js) ≡ (Pg.ok tt, table js')
      → get_period_start run.ctx.conn job (table js') ≡ (Pg.ok (some period), table js')
      → read_conversation_by_id aead cipher run.ctx.conn run.conversation_id false (ready t)
        ≡ (err decryption_error, ready t)
      → attempt aead cipher lower record_audit meanwhile others run (begin run (at_work t js s))
        ≡ (err decryption_error, left_behind run t js s)
  unfolding attempt
  attempt_fails run job period t js js' s known connects fresh started read broken =
      ap (λ x. continue x.0 (phase_2 aead cipher lower record_audit meanwhile others run) x.1)
        (subst
          (λ o.
            phase_1 record_audit aead cipher lower run.ctx o run.conversation_id
              (begin run (at_work t js s))
            ≡ (err decryption_error, left_behind run t js s))
          (sym known)
          (phase_1_fails aead cipher lower record_audit meanwhile others run job t js js'
            (begin run s) period connects fresh started read broken))

  -- Where the budget helper works, the conversation is not processed, the job starts and has a period,
  -- and the conversation cannot be decrypted: the run raises DecryptionError and refunds the
  -- pre-charge into the period that is current while it runs. The job's own period is not used,
  -- whichever it is.
  pub refund_wrong_bucket :
      (run : Run) (job period : ℕ) (t : Tables) (js js' : List Job) (s : State)
      → run.job ≡ some job
      → run.ctx.connects loading ≡ true
      → processed_time
          (find_row (conversation_by_id run.ctx.conn run.conversation_id) t.conversations)
        ≡ none
      → mark_running run.ctx.conn job (table js) ≡ (Pg.ok tt, table js')
      → get_period_start run.ctx.conn job (table js') ≡ (Pg.ok (some period), table js')
      → read_conversation_by_id aead cipher run.ctx.conn run.conversation_id false (ready t)
        ≡ (err decryption_error, ready t)
      → run.ctx.helper ≡ some true
      → let (r, s') =
          extract_conversation aead cipher lower record_audit meanwhile others run
            (at_work t js s) in
        (r ≡ err decryption_error)
        × (s'.settlements
            ≡ record {
              period_start = run.ctx.current_period_start;
              actual_cents = 0;
              estimated_cents = run.ctx.pre_charge_cents;
            }
              ∷ s.settlements)
  unfolding extract_conversation
  refund_wrong_bucket run job period t js js' s known connects fresh started read broken helper =
      rw
        (ap (λ x. conclude aead cipher lower record_audit meanwhile others run x.0 x.1)
          (attempt_fails run job period t js js' s known connects fresh started read broken))
        (refunded record_audit run decryption_error (left_behind run t js s) helper refl)
