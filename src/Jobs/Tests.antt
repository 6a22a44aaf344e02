-- ===== src/Jobs/Tests.antt =====
-- Runs of the extraction_jobs model on small tables.
use gubbi.Prelude.{ℕ, ◌≡◌, ◌⊎◌, refl, true, false, none, some, List, [], ◌∷◌, nat_eq, string_eq}
use gubbi.Pg.{Conn, World, ok, err, already_in_flight, in_failed_transaction}
use gubbi.Jobs.Table.{Job, Status, running, new_job, slot_taken, ident_taken}
use gubbi.Jobs.Repository.{create_pending, StatusCounts}
use gubbi.Jobs.Sweep.{sweep_round}
use gubbi.Jobs.History.{complete, apply, find_job, Kept}
use gubbi.Jobs.Create.{active_in_slot, create_pending_autocommit, create_pending_in_transaction}
use gubbi.Jobs.Steps.{apply-Kept}

abbrev alice : ℕ
alice = 7

-- A session of the user outside any transaction, and one inside.
abbrev direct : Conn
direct = record {
  tenant = some alice;
  now = 5000;
  in_transaction = false;
  references = λ u c. true;
}

abbrev within : Conn
within = record { tenant = some alice; now = 5000; in_transaction = true; references = λ u c. true }

abbrev job_with : ℕ → Status → Job
job_with i s = record {
  ident = i;
  user = alice;
  conversation = 40;
  source = "api";
  status = s;
  topics_created = 0;
  entries_created = 0;
  cents_spent = 0;
  error_code = none;
  created_at = 100;
  started_at = some 200;
  completed_at = none;
  period_start = 1;
}

abbrev table : List Job → World Job
table js = record { rows = js; aborted = false }

abbrev busy : World Job
busy = table (job_with 1 running ∷ [])

create_pending_autocommit_example :
    (slot_taken (new_job direct 2 alice 40 "api" 1) busy.rows ≡ false)
      × (create_pending direct 2 alice 40 "api" 1 busy
          ≡ (ok 2, record busy { rows = new_job direct 2 alice 40 "api" 1 ∷ busy.rows }))
    ⊎ ((i : ℕ) × (active_in_slot i (new_job direct 2 alice 40 "api" 1) busy.rows ≡ true)
        × (create_pending direct 2 alice 40 "api" 1 busy ≡ (err (already_in_flight i), busy)))
unfolding ident_taken nat_eq string_eq
create_pending_autocommit_example =
    create_pending_autocommit direct alice 2 40 "api" 1 busy refl refl refl refl refl

create_pending_in_transaction_example :
    create_pending within 2 alice 40 "api" 1 busy
    ≡ (err in_failed_transaction, record busy { aborted = true })
unfolding ident_taken slot_taken nat_eq string_eq
create_pending_in_transaction_example =
    create_pending_in_transaction within alice 2 40 "api" 1 busy refl refl refl refl refl refl

apply-Kept_example :
    Kept (job_with 1 running) (find_job 1 (apply (complete direct 1 2 3 4) busy).rows)
unfolding find_job nat_eq string_eq
apply-Kept_example = apply-Kept 1 busy (job_with 1 running) refl (complete direct 1 2 3 4)

abbrev busy_counts : StatusCounts
busy_counts = record { in_flight_count = 1; synced_count = 0; last_sync_at = none }

abbrev done_counts : StatusCounts
done_counts = record { in_flight_count = 0; synced_count = 1; last_sync_at = some 5000 }

-- The running job was started long ago: it is failed and refunded.
sweep_round_test : (sweep_round direct 10 busy).0 ≡ (alice, 1) ∷ []
unfolding sweep_round nat_eq string_eq
sweep_round_test = refl
