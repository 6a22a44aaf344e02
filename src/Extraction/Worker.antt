-- ===== src/Extraction/Worker.antt =====
-- What a run of extract_conversation works on: the journal and the jobs in one database, the budget in
-- Redis, and the local variables that its except clause reads.
use gubbi.Prelude.{ℕ, String, Bool, true, false, Option, List, if◌then◌else◌}
use gubbi.Pg
use gubbi.Pg.{Conn, World}
use gubbi.Crypto.Utf8.{Text}
use gubbi.Jobs.Table.{Job}
use gubbi.Journal.Store.{
  Session, Error, Result, ok, err, unique_violation, foreign_key_violation, insufficient_privilege,
  in_failed_transaction, runtime_error, os_error, llm_rate_limit_error, llm_provider_error, Exec,
  rolled_back,
}
use gubbi.Journal.Entries.{DateText}

-- What the LLM service answers.
pub record Categorization : Type 0 where
  pub topic_path : Option Text
  pub topic_title : Text
  pub input_tokens : ℕ
  pub output_tokens : ℕ

pub record ExtractedEntry : Type 0 where
  pub content : Text
  pub reasoning : Text
  pub tags : List Text
  pub entry_date : Option DateText

pub record ExtractionResult : Type 0 where
  pub entries : List ExtractedEntry
  pub input_tokens : ℕ
  pub output_tokens : ℕ

-- A role and a content.
abbrev pub LlmMessage : Type 0
LlmMessage = Text × Text

-- ExtractionService. A provider without estimate_cost_cents gives `none`; one that raises, an error.
pub record Service : Type 0 where
  pub categorize_conversation : List LlmMessage → List Text → Result Categorization
  pub extract_entries : List LlmMessage → Text → Result ExtractionResult
  pub estimate_cost_cents : Option (ℕ → ℕ → Result ℕ)

-- A call of the budget helper's record_actual_cost that went through.
pub record Settlement : Type 0 where
  pub period_start : ℕ
  pub actual_cents : ℕ
  pub estimated_cents : ℕ

-- The four places where a connection is taken from the pool.
pub data Phase : Type 0 where
  loading persisting skipping failing : Phase

-- `effective_period_start` and `period_start_known` are the local variables of those names.
pub record State : Type 0 where
  pub journal : Session
  pub jobs : World Job
  pub settlements : List Settlement
  pub skipped_refunds : ℕ
  pub events : List (Option Text × ℕ)
  pub effective_period_start : ℕ
  pub period_start_known : Bool

abbrev pub Work : Type 0 → Type 0
Work A = State → Result A × State

module _ {A : Type 0} where
  abbrev pub pure : A → Work A
  pure a s = (ok a, s)

  abbrev pub raise : Error → Work A
  raise e s = (err e, s)

  abbrev pub of_result : Result A → Work A
  of_result r s = (r, s)

module _ {A B : Type 0} where
  abbrev pub continue : Result A → (A → Work B) → Work B
  continue (ok a) f s = f a s
  continue (err e) f s = (err e, s)

  infixl 5 ◌>>=◌ ◌>>◌
  abbrev pub ◌>>=◌ : Work A → (A → Work B) → Work B
  ◌>>=◌ m f s = let (r, s') = m s in continue r f s'

  abbrev pub ◌>>◌ : Work A → Work B → Work B
  m >> n = m >>= λ _. n

abbrev pub of_pg : Pg.Error → Error
of_pg Pg.unique_violation = unique_violation
of_pg Pg.foreign_key_violation = foreign_key_violation
of_pg Pg.insufficient_privilege = insufficient_privilege
of_pg Pg.in_failed_transaction = in_failed_transaction
of_pg (Pg.already_in_flight i) = runtime_error
of_pg Pg.runtime_error = runtime_error

module _ {A : Type 0} where
  abbrev pub from_pg : Pg.Result A → Result A
  from_pg (Pg.ok a) = ok a
  from_pg (Pg.err e) = err (of_pg e)

  -- Both repositories work on the worker's one connection: it is aborted for both, or for neither.
  abbrev pub on_journal : Exec A → Work A
  on_journal m s =
      let (r, j) = m s.journal in
      (r, record s { journal = j; jobs = record s.jobs { aborted = j.aborted } })

  abbrev pub on_jobs : Pg.Exec Job A → Work A
  on_jobs m s =
      let (r, w) = m s.jobs in
      (from_pg r, record s { jobs = w; journal = record s.journal { aborted = w.aborted } })

-- A rollback restores both tables; the budget, the events and the local variables stay.
abbrev pub restore : State → State → State
restore before after = record after {
  journal = record before.journal {
    tables = rolled_back before.journal.tables after.journal.tables;
  };
  jobs = before.jobs;
}

module _ {A : Type 0} where
  abbrev pub finish : (nested : Bool) → State → Result A → State → Result A × State
  finish nested before (ok a) after =
      if after.journal.aborted
      then (if nested then err in_failed_transaction else ok a, restore before after)
      else (ok a, after)
  finish nested before (err e) after = (err e, restore before after)

  -- `async with conn.transaction()` inside the connection's transaction.
  abbrev pub savepoint : Work A → Work A
  savepoint m s = let (r, s') = m s in finish true s r s'

  abbrev pub commit : (commits : Bool) → State → Result A × State → Result A × State
  commit true before outcome = outcome
  commit false before (ok a, after) = (err os_error, restore before after)
  commit false before (err e, after) = (err e, after)

  -- `async with user_scoped_connection(pool, user_id)`: a transaction on a connection of the pool.
  -- `connects` tells that the pool gives one, `commits` that the COMMIT goes through.
  abbrev pub scoped : (connects commits : Bool) → Work A → Work A
  scoped false commits m s = (err os_error, s)
  scoped true commits m s = let (r, s') = m s in commit commits s (finish false s r s')

-- _classify_error.
abbrev pub classify_error : Error → String
classify_error llm_rate_limit_error = "llm_rate_limited"
classify_error llm_provider_error = "llm_provider_error"
classify_error e = "internal_error"

-- What the run is given: `helper` is the budget helper, where one is configured, and whether its calls
-- go through; `redis_works` is the same of publishing.
pub record Context : Type 0 where
  pub conn : Conn
  pub service : Service
  pub helper : Option Bool
  pub redis_works : Bool
  pub connects : Phase → Bool
  pub commits : Phase → Bool
  pub current_period_start : ℕ
  pub pre_charge_cents : ℕ
