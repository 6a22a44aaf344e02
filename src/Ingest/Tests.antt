-- ===== src/Ingest/Tests.antt =====
-- Runs of the ingest model on small requests.
use gubbi.Prelude.{
  ℕ, ◌+◌, ◌≡◌, refl, String, Bool, true, false, List, [], ◌∷◌, some, length, if◌then◌else◌, nat_eq,
  string_eq,
}
use gubbi.Ingest.Batch.{Incoming, Setup, ingest_conversations}
use gubbi.Ingest.Counters.{ingest_conversations_lem}
use gubbi.Ingest.Enqueued.{TasksHaveJobs, ingest_conversations-TasksHaveJobs}

abbrev setup : Setup
setup = record {
  conn = record { tenant = some 7; now = 50; in_transaction = true; references = λ u c. true };
  user = 7;
  has_budget = true;
  period_start = 1;
}

abbrev chat : String → ℕ → Bool → Bool → Incoming
chat key i granted fails = record {
  key = record { platform = "claude"; platform_id = key };
  conversation_id = i;
  job_id = i;
  raced = false;
  granted = granted;
  audit_raises = fails;
  refund_raises = false;
}

-- One that goes through, its duplicate, one over budget and one whose audit row fails.
abbrev request : List Incoming
request =
    chat "a" 1 true false
    ∷ chat "a" 2 true false
    ∷ chat "b" 3 false false
    ∷ chat "c" 4 true true
    ∷ []

ingest_conversations_test : (ingest_conversations setup request [] []).0 ≡ record {
  conversations_saved = 3;
  conversations_skipped_dedupe = 1;
  extractions_enqueued = 1;
  extractions_skipped_budget = 1;
  extractions_skipped_error = 1;
  budget_exhausted = true;
}
unfolding ingest_conversations nat_eq string_eq
ingest_conversations_test = refl

ingest_conversations_lem_example :
    let (r, b) = ingest_conversations setup request [] [] in
    (r.conversations_saved + r.conversations_skipped_dedupe ≡ length request)
    × (r.conversations_saved
        ≡ r.extractions_enqueued + r.extractions_skipped_budget + r.extractions_skipped_error)
    × (b.charges
        ≡ (if setup.has_budget then r.extractions_enqueued + b.refunds + b.failed_refunds else 0))
ingest_conversations_lem_example = ingest_conversations_lem setup request [] []

ingest_conversations-TasksHaveJobs_example :
    TasksHaveJobs
      (ingest_conversations setup request [] []).1.enqueue_tasks
      (ingest_conversations setup request [] []).1.jobs
ingest_conversations-TasksHaveJobs_example =
    ingest_conversations-TasksHaveJobs setup refl request [] []
