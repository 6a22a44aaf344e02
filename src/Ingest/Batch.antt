-- ===== src/Ingest/Batch.antt =====
-- The loop of ingest_conversations in gubbi/api/v1/ingest.py: dedupe, save, pre-charge and the job
-- of each conversation of a request. What other parties decide is an argument of each conversation.
use gubbi.Prelude.{
  ℕ, suc, String, Bool, true, false, ◌&&◌, ◌||◌, not, Option, none, some, List, [], ◌∷◌, ◌++◌, ◌==◌,
  string_eq, if◌then◌else◌, length, any,
}
use gubbi.Pg.{Conn, World, Result, ok, err, already_in_flight}
use gubbi.Jobs.Table.{Job}
use gubbi.Jobs.Repository.{create_pending}

-- A saved conversation, by the columns of its unique key.
pub record Saved : Type 0 where
  pub platform : String
  pub platform_id : String

-- A conversation of the request, with the identifiers that the database draws for it, and what
-- happens while it is handled: another request saves it first, the budget helper grants the
-- pre-charge, the audit row or the refund raises.
pub record Incoming : Type 0 where
  pub key : Saved
  pub conversation_id : ℕ
  pub job_id : ℕ
  pub raced : Bool
  pub granted : Bool
  pub audit_raises : Bool
  pub refund_raises : Bool

-- What the request does not choose: its user's connection inside a transaction, whether a budget
-- helper is configured, and the billing period.
pub record Setup : Type 0 where
  pub conn : Conn
  pub user : ℕ
  pub has_budget : Bool
  pub period_start : ℕ

-- The tables, the handler's counters, and the calls of the budget helper that succeeded.
pub record Batch : Type 0 where
  pub saved_rows : List Saved
  pub jobs : List Job
  pub conversations_saved : ℕ
  pub skipped_dedupe : ℕ
  pub skipped_budget : ℕ
  pub skipped_error : ℕ
  pub budget_exhausted : Bool
  pub enqueue_tasks : List (ℕ × ℕ)
  pub charges : ℕ
  pub refunds : ℕ
  pub failed_refunds : ℕ

abbrev pub same_key : Saved → Saved → Bool
same_key a b = a.platform == b.platform && a.platform_id == b.platform_id

-- exists_by_platform_id.
abbrev pub exists_row : Saved → List Saved → Bool
exists_row k rows = any (same_key k) rows

-- TXN 2 after create_pending: the audit row in the same transaction; `none` is an exception, which
-- rolls the transaction back. A session whose transaction is aborted refuses the audit row.
abbrev pub audit : Incoming → List Job → ℕ → World Job → Option ℕ × List Job
audit c rows job w = if w.aborted || c.audit_raises then (none, rows) else (some job, w.rows)

abbrev pub after_create : Incoming → List Job → Result ℕ → World Job → Option ℕ × List Job
after_create c rows (ok job) w = audit c rows job w
after_create c rows (err (already_in_flight job)) w = audit c rows job w
after_create c rows (err e) w = (none, rows)

unfoldable pub transaction_2 : Setup → Incoming → List Job → Option ℕ × List Job
unfolding create_pending
transaction_2 s c rows =
    let (r, w) =
      create_pending s.conn c.job_id s.user c.conversation_id c.key.platform s.period_start
        (record { rows = rows; aborted = false }) in
    after_create c rows r w

-- The refund after a failed TXN 2, whose own failure is swallowed.
abbrev pub refund : Setup → Incoming → Batch → Batch
refund s c b =
    if s.has_budget
    then if c.refund_raises
      then record b { failed_refunds = suc b.failed_refunds }
      else record b { refunds = suc b.refunds }
    else b

abbrev pub after_transaction_2 : Setup → Incoming → Batch → Option ℕ × List Job → Batch
after_transaction_2 s c b (none, jobs) =
    refund s c (record b { jobs = jobs; skipped_error = suc b.skipped_error })
after_transaction_2 s c b (some job, jobs) = record b {
  jobs = jobs;
  enqueue_tasks = b.enqueue_tasks ++ ((job, c.conversation_id) ∷ []);
}

abbrev pub charge : Setup → Batch → Batch
charge s b = if s.has_budget then record b { charges = suc b.charges } else b

-- The pre-charge, and what follows it. Without a helper the budget is off.
unfoldable pub charge_and_create : Setup → Incoming → Batch → Batch
unfolding transaction_2
charge_and_create s c b =
    if s.has_budget && not c.granted
    then record b { skipped_budget = suc b.skipped_budget; budget_exhausted = true }
    else after_transaction_2 s c (charge s b) (transaction_2 s c b.jobs)

-- The body of the loop.
unfoldable pub ingest_one : Setup → Incoming → Batch → Batch
unfolding charge_and_create
ingest_one s c b =
    if exists_row c.key b.saved_rows
    then record b { skipped_dedupe = suc b.skipped_dedupe }
    else if c.raced
    then record b { saved_rows = c.key ∷ b.saved_rows; skipped_dedupe = suc b.skipped_dedupe }
    else charge_and_create s c (record b {
      saved_rows = c.key ∷ b.saved_rows;
      conversations_saved = suc b.conversations_saved;
    })

unfoldable pub ingest_all : Setup → List Incoming → Batch → Batch
unfolding ingest_one
ingest_all s [] b = b
ingest_all s (c ∷ cs) b = ingest_all s cs (ingest_one s c b)

abbrev pub start : List Saved → List Job → Batch
start saved jobs = record {
  saved_rows = saved;
  jobs = jobs;
  conversations_saved = 0;
  skipped_dedupe = 0;
  skipped_budget = 0;
  skipped_error = 0;
  budget_exhausted = false;
  enqueue_tasks = [];
  charges = 0;
  refunds = 0;
  failed_refunds = 0;
}

-- The response of ingest_conversations.
pub record Response : Type 0 where
  pub conversations_saved : ℕ
  pub conversations_skipped_dedupe : ℕ
  pub extractions_enqueued : ℕ
  pub extractions_skipped_budget : ℕ
  pub extractions_skipped_error : ℕ
  pub budget_exhausted : Bool

unfoldable pub response : Batch → Response
response b = record {
  conversations_saved = b.conversations_saved;
  conversations_skipped_dedupe = b.skipped_dedupe;
  extractions_enqueued = length b.enqueue_tasks;
  extractions_skipped_budget = b.skipped_budget;
  extractions_skipped_error = b.skipped_error;
  budget_exhausted = b.budget_exhausted;
}

unfoldable pub ingest_conversations :
    Setup → List Incoming → List Saved → List Job → Response × Batch
unfolding ingest_all response
ingest_conversations s cs saved jobs = let b = ingest_all s cs (start saved jobs) in (response b, b)
