-- ===== src/Jobs/Repository.antt =====
-- The repository of gubbi/storage/repositories/extraction_jobs.py, a function for each of its own.
use gubbi.Prelude.{
  ℕ, max, String, Bool, ◌&&◌, Option, none, some, List, [], ◌∷◌, count, if◌then◌else◌, ◌==◌, nat_eq,
  string_eq,
}
use gubbi.Pg.{
  Conn, Exec, Error, Result, ok, err, unique_violation, already_in_flight, runtime_error, pure,
  raise, statement, catch, ◌>>=◌, ◌>>◌,
}
use gubbi.Jobs.Table.{
  Job, Status, completed, failed, find_active, insert_row, is_active, is_completed, may_start,
  new_job, running, unique_active, visible,
}

-- What create_pending does with the row of its second SELECT.
abbrev pub report_existing : Option ℕ → Exec Job ℕ
report_existing none = raise runtime_error
report_existing (some i) = raise (already_in_flight i)

-- The `except asyncpg.UniqueViolationError` clause; other errors pass.
abbrev pub on_conflict : Conn → Job → Error → Exec Job ℕ
on_conflict conn j unique_violation =
    statement conn (λ js. ok (find_active conn.tenant j js, js)) >>= report_existing
on_conflict conn j e = raise e

-- `ident` is the value of gen_random_uuid().
unfoldable pub create_pending : Conn → ℕ → ℕ → ℕ → String → ℕ → Exec Job ℕ
unfolding insert_row find_active
create_pending conn ident user conversation source period_start =
    let j = new_job conn ident user conversation source period_start in
    catch (statement conn (insert_row conn j)) (on_conflict conn j)

-- `SELECT period_start ... WHERE id = $1`, under the row policy.
unfoldable pub find_period_start : Option ℕ → ℕ → List Job → Option ℕ
find_period_start tenant i [] = none
find_period_start tenant i (k ∷ js) =
    let rest = find_period_start tenant i js in
    if visible tenant k && k.ident == i then some k.period_start else rest

unfoldable pub get_period_start : Conn → ℕ → Exec Job (Option ℕ)
unfolding find_period_start
get_period_start conn i = statement conn (λ js. ok (find_period_start conn.tenant i js, js))

-- `UPDATE ... SET ... WHERE ...`: the rows that pass `test` are rewritten.
unfoldable pub update_rows : (Job → Bool) → (Job → Job) → List Job → List Job
update_rows test f [] = []
update_rows test f (k ∷ js) = (if test k then f k else k) ∷ update_rows test f js

-- The partial unique index is checked on the rows that an UPDATE leaves.
unfoldable pub check_index : ℕ → List Job → Result (ℕ × List Job)
check_index n js = if unique_active js then ok (n, js) else err unique_violation

-- An UPDATE as a statement; it answers the number of rows that it rewrote.
unfoldable pub update_where : Conn → (Job → Bool) → (Job → Job) → Exec Job ℕ
unfolding update_rows check_index unique_active
update_where conn test f =
    statement conn (λ js. check_index (count test js) (update_rows test f js))

-- The condition `id = $1` with the row policy and a condition on the status.
abbrev pub targets : Option ℕ → ℕ → (Status → Bool) → Job → Bool
targets tenant i on_status k = visible tenant k && (k.ident == i && on_status k.status)

abbrev pub start_row : ℕ → Job → Job
start_row now k = record k { status = running; started_at = some now; error_code = none }

unfoldable pub mark_running : Conn → ℕ → Exec Job Unit
unfolding update_where
mark_running conn i =
    update_where conn (targets conn.tenant i may_start) (start_row conn.now) >> pure tt

-- `CASE WHEN $n IS NULL THEN old ELSE GREATEST(old, $n) END`.
abbrev pub raise_counter : Option ℕ → ℕ → ℕ
raise_counter none old = old
raise_counter (some n) old = max old n

abbrev pub progress_row : Option ℕ → Option ℕ → Job → Job
progress_row topics entries k = record k {
  topics_created = raise_counter topics k.topics_created;
  entries_created = raise_counter entries k.entries_created;
}

unfoldable pub update_progress : Conn → ℕ → Option ℕ → Option ℕ → Exec Job Unit
unfolding update_where
update_progress conn i none none = pure tt
update_progress conn i (some t) entries =
    update_where conn (targets conn.tenant i is_active) (progress_row (some t) entries) >> pure tt
update_progress conn i none (some n) =
    update_where conn (targets conn.tenant i is_active) (progress_row none (some n)) >> pure tt

abbrev pub complete_row : ℕ → ℕ → ℕ → ℕ → Job → Job
complete_row now topics entries cents k = record k {
  status = completed;
  topics_created = topics;
  entries_created = entries;
  cents_spent = cents;
  completed_at = some now;
}

-- The answer is `result == "UPDATE 1"`.
unfoldable pub mark_completed : Conn → ℕ → ℕ → ℕ → ℕ → Exec Job Bool
unfolding update_where
mark_completed conn i topics entries cents =
    update_where conn (targets conn.tenant i is_active) (complete_row conn.now topics entries cents)
    >>= λ n. pure (n == 1)

abbrev pub fail_row : ℕ → String → Job → Job
fail_row now code k = record k { status = failed; error_code = some code; completed_at = some now }

unfoldable pub mark_failed : Conn → ℕ → String → Exec Job Bool
unfolding update_where
mark_failed conn i code =
    update_where conn (targets conn.tenant i is_active) (fail_row conn.now code) >>= λ n.
    pure (n == 1)

pub record StatusCounts : Type 0 where
  pub in_flight_count : ℕ
  pub synced_count : ℕ
  pub last_sync_at : Option ℕ

-- SQL's MAX, which skips NULL.
abbrev pub max_time : Option ℕ → Option ℕ → Option ℕ
max_time none t = t
max_time (some a) none = some a
max_time (some a) (some b) = some (max a b)

unfoldable pub last_completed : Option ℕ → List Job → Option ℕ
last_completed tenant [] = none
last_completed tenant (k ∷ js) =
    let rest = last_completed tenant js in
    if visible tenant k && is_completed k.status then max_time k.completed_at rest else rest

-- The table holds only the four statuses, of which 'pending' and 'running' are the active ones.
unfoldable pub get_status_counts : Conn → Exec Job StatusCounts
unfolding last_completed
get_status_counts conn = statement conn λ js. ok (
  record {
    in_flight_count = count (λ k. visible conn.tenant k && is_active k.status) js;
    synced_count = count (λ k. visible conn.tenant k && is_completed k.status) js;
    last_sync_at = last_completed conn.tenant js;
  },
  js,
)
