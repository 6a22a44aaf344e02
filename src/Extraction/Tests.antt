-- ===== src/Extraction/Tests.antt =====
-- Runs of the extraction on small tables.
use gubbi.Prelude.{
  ◌≡◌, refl, true, false, none, some, [], ◌∷◌, codes, count, nat_eq, list_eq, string_eq,
}
use gubbi.Crypto.Cipher.{Aead}
use gubbi.Jobs.Table.{Job, pending, running}
use gubbi.Jobs.Repository.{mark_running, get_period_start}
use gubbi.Validation.Topic.{validate_topic, validate_cleaned, is_slug_char, harden_llm_topic_path}
use gubbi.Journal.Store.{Tables, ready, ok, err, decryption_error, in_failed_transaction}
use gubbi.Journal.Sample.{plain, cipher, lower, drawn, conn, record_audit, tables, topic}
use gubbi.Journal.Topics.{insert_topic}
use gubbi.Journal.Conversations.Read.{read_conversation_by_id}
use gubbi.Extraction.Worker.{State, Service, Context, Categorization, ExtractionResult}
use gubbi.Extraction.Persist.{persist_extraction}
use gubbi.Extraction.Extract.{Run, extract_conversation}
use gubbi.Extraction.Sequence.{Turn, wrote, run_all}
use gubbi.Extraction.Bucket
use gubbi.Extraction.Bucket.{refund_wrong_bucket}
use gubbi.Extraction.Races.{at_work, persist_extraction_race}

-- Nothing opens.
abbrev broken : Aead
broken = record { seal = λ k n p. p; unseal = λ k n c. none }

abbrev categorization : Categorization
categorization = record {
  topic_path = some (codes "work/plan");
  topic_title = codes "Plan";
  input_tokens = 3;
  output_tokens = 2;
}

abbrev extraction : ExtractionResult
extraction = record {
  entries =
      record { content = codes "a"; reasoning = codes "b"; tags = []; entry_date = none } ∷ [];
  input_tokens = 5;
  output_tokens = 4;
}

abbrev service : Service
service = record {
  categorize_conversation = λ messages topics. ok categorization;
  extract_entries = λ messages path. ok extraction;
  estimate_cost_cents = some (λ input output. ok 1);
}

abbrev context : Context
context = record {
  conn = conn;
  service = service;
  helper = some true;
  redis_works = true;
  connects = λ p. true;
  commits = λ p. true;
  current_period_start = 31;
  pre_charge_cents = 10;
}

abbrev run : Run
run = record {
  ctx = context;
  user = 7;
  job = some 1;
  conversation_id = 1;
  attempt = codes "x";
  drawn = drawn;
}

abbrev job : Job
job = record {
  ident = 1;
  user = 7;
  conversation = 1;
  source = "claude";
  status = pending;
  topics_created = 0;
  entries_created = 0;
  cents_spent = 0;
  error_code = none;
  created_at = 1;
  started_at = none;
  completed_at = none;
  period_start = 1;
}

abbrev started : Job
started = record job { status = running; started_at = some 90000 }

abbrev state : State
state = record {
  journal = ready tables;
  jobs = record { rows = job ∷ []; aborted = false };
  settlements = [];
  skipped_refunds = 0;
  events = [];
  effective_period_start = 0;
  period_start_known = false;
}

abbrev same : Tables → Tables
same t = t

-- Another session creates the topic.
abbrev taken : Tables → Tables
taken t = record t { topics = topic 9 "work/plan" ∷ t.topics }

abbrev turn : Turn
turn = record { run = run; meanwhile = same; others = same }

persist_extraction_race_example :
    persist_extraction record_audit plain cipher lower context taken drawn
      (codes "x")
      7
      (some 1)
      1
      (codes "work/plan")
      categorization
      extraction.entries
      1
      (at_work tables false (job ∷ []) state)
    ≡ (err in_failed_transaction, at_work (taken tables) true (job ∷ []) state)
unfolding insert_topic validate_topic is_slug_char nat_eq list_eq string_eq
persist_extraction_race_example =
    persist_extraction_race plain cipher lower record_audit context taken drawn (codes "x") 7 1 1
      (some 1) (codes "work/plan") (codes "work/plan") tables (job ∷ []) state categorization
      extraction.entries refl refl refl refl

run_all_test : count wrote (run_all plain cipher lower record_audit (turn ∷ turn ∷ []) state) ≡ 1
unfolding run_all harden_llm_topic_path validate_cleaned is_slug_char nat_eq list_eq string_eq
run_all_test = refl

refund_wrong_bucket_example :
    let (r, s') =
      extract_conversation broken cipher lower record_audit same same run
        (Bucket.at_work tables (job ∷ []) state) in
    (r ≡ err decryption_error)
    × (s'.settlements ≡ record { period_start = 31; actual_cents = 0; estimated_cents = 10 } ∷ [])
unfolding mark_running get_period_start read_conversation_by_id nat_eq list_eq string_eq
refund_wrong_bucket_example =
    refund_wrong_bucket broken cipher lower record_audit same same run 1 1 tables (job ∷ [])
      (started ∷ []) state refl refl refl refl refl refl refl
