-- ===== src/Jobs/Table.antt =====
-- The extraction_jobs table of gubbi/alembic/baseline_schema.sql: its rows, indexes and row policy,
-- and the reads and writes that the repository makes of it.
use gubbi.Prelude.{
  ℕ, String, Bool, true, false, ◌&&◌, ◌||◌, not, Option, none, some, List, [], ◌∷◌, if◌then◌else◌,
  ◌==◌, nat_eq, string_eq,
}
use gubbi.Pg.{
  Conn, Result, ok, err, unique_violation, foreign_key_violation, insufficient_privilege,
}

pub data Status : Type 0 where
  pending running completed failed : Status

-- A row of the table. The identifiers (UUIDs and serial numbers) and the times are numbers.
pub record Job : Type 0 where
  pub ident : ℕ
  pub user : ℕ
  pub conversation : ℕ
  pub source : String
  pub status : Status
  pub topics_created : ℕ
  pub entries_created : ℕ
  pub cents_spent : ℕ
  pub error_code : Option String
  pub created_at : ℕ
  pub started_at : Option ℕ
  pub completed_at : Option ℕ
  pub period_start : ℕ

-- `status NOT IN ('completed', 'failed')`.
abbrev pub is_active : Status → Bool
is_active pending = true
is_active running = true
is_active completed = false
is_active failed = false

-- `status IN ('pending', 'failed')`.
abbrev pub may_start : Status → Bool
may_start pending = true
may_start failed = true
may_start running = false
may_start completed = false

abbrev pub is_completed : Status → Bool
is_completed completed = true
is_completed pending = false
is_completed running = false
is_completed failed = false

-- The row-level policy: `user_id = app_current_user_active()`.
abbrev pub visible : Option ℕ → Job → Bool
visible none j = false
visible (some u) j = j.user == u

-- The key of the partial unique index.
abbrev pub same_slot : Job → Job → Bool
same_slot j k = j.user == k.user && (j.conversation == k.conversation && j.source == k.source)

-- Whether an active row of `js` has the slot of `j`.
unfoldable pub slot_taken : Job → List Job → Bool
slot_taken j [] = false
slot_taken j (k ∷ js) = is_active k.status && same_slot j k || slot_taken j js

-- idx_extraction_jobs_active_per_conversation: no two active rows share a slot.
unfoldable pub unique_active : List Job → Bool
unfolding slot_taken
unique_active [] = true
unique_active (j ∷ js) = not (is_active j.status && slot_taken j js) && unique_active js

-- extraction_jobs_pkey.
unfoldable pub ident_taken : ℕ → List Job → Bool
ident_taken i [] = false
ident_taken i (k ∷ js) = k.ident == i || ident_taken i js

-- `INSERT ... RETURNING id`, with the row policy, the two unique indexes and the foreign keys.
unfoldable pub insert_row : Conn → Job → List Job → Result (ℕ × List Job)
unfolding ident_taken slot_taken
insert_row conn j js =
    if not (visible conn.tenant j)
    then err insufficient_privilege
    else if ident_taken j.ident js || is_active j.status && slot_taken j js
    then err unique_violation
    else if conn.references j.user j.conversation
    then ok (j.ident, j ∷ js)
    else err foreign_key_violation

-- The row that create_pending inserts; the omitted columns take their defaults.
abbrev pub new_job : Conn → ℕ → ℕ → ℕ → String → ℕ → Job
new_job conn ident user conversation source period_start = record {
  ident = ident;
  user = user;
  conversation = conversation;
  source = source;
  status = pending;
  topics_created = 0;
  entries_created = 0;
  cents_spent = 0;
  error_code = none;
  created_at = conn.now;
  started_at = none;
  completed_at = none;
  period_start = period_start;
}

-- `SELECT id ... LIMIT 1` of the active row in a slot.
unfoldable pub find_active : Option ℕ → Job → List Job → Option ℕ
find_active tenant j [] = none
find_active tenant j (k ∷ js) =
    let rest = find_active tenant j js in
    if visible tenant k && (is_active k.status && same_slot j k) then some k.ident else rest
