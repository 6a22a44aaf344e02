-- ===== src/Jobs/Sweep.antt =====
-- One round of the orphan sweep, gubbi/extraction/orphan_cleanup.py: stale pending rows, then stale
-- running rows, are marked failed, and each swept row's charge is handed back. Times are seconds.
use gubbi.Prelude.{
  ℕ, ◌+◌, ◌*◌, ◌≡◌, String, Bool, true, false, ◌&&◌, Option, none, some, List, [], ◌++◌, map, ltb,
  filter,
}
use gubbi.Pg.{Conn, World, Result, ok, err, Exec, statement}
use gubbi.Jobs.Table.{Job, Status, pending, running, completed, failed}
use gubbi.Jobs.Repository.{update_rows, fail_row}

-- A refund of the charge made at ingest: the user and the billing period.
abbrev pub Refund : Type 0
Refund = ℕ × ℕ

abbrev pub refund_of : Job → Refund
refund_of k = (k.user, k.period_start)

abbrev pub running_threshold_secs : ℕ
running_threshold_secs = 2 * 600

abbrev pub is_pending : Status → Bool
is_pending pending = true
is_pending running = false
is_pending completed = false
is_pending failed = false

abbrev pub is_running : Status → Bool
is_running pending = false
is_running running = true
is_running completed = false
is_running failed = false

-- `created_at < now() - minutes * interval '1 minute'`.
abbrev pub stale_pending : ℕ → ℕ → Job → Bool
stale_pending now minutes k = is_pending k.status && ltb (k.created_at + minutes * 60) now

-- `t < now() - secs`, which is not true of NULL.
abbrev pub older_than : ℕ → ℕ → Option ℕ → Bool
older_than now secs none = false
older_than now secs (some t) = ltb (t + secs) now

abbrev pub stale_running : ℕ → ℕ → Job → Bool
stale_running now secs k = is_running k.status && older_than now secs k.started_at

-- The sweep runs with BYPASSRLS, so its UPDATEs see the rows of every user. A row that becomes
-- failed leaves the partial unique index, which is not checked here.
unfoldable pub sweep : Conn → (Job → Bool) → String → Exec Job (List Refund)
unfolding update_rows
sweep conn test code =
    statement conn
      (λ js. ok (map refund_of (filter test js), update_rows test (fail_row conn.now code) js))

-- What a sweep refunds: nothing where the statement raised.
abbrev pub refunds : Result (List Refund) → List Refund
refunds (ok rs) = rs
refunds (err e) = []

-- The second sweep runs only where the first raised nothing.
abbrev pub then_running : Conn → Result (List Refund) × World Job → List Refund × World Job
then_running conn (ok rs, w) =
    let (second, w') = sweep conn (stale_running conn.now running_threshold_secs) "worker_lost" w in
    (rs ++ refunds second, w')
then_running conn (err e, w) = ([], w)

-- The body of the loop of run_orphan_cleanup: the refunds that it asks for, and the table it leaves.
unfoldable pub sweep_round : Conn → ℕ → World Job → List Refund × World Job
unfolding sweep
sweep_round conn minutes w =
    then_running conn (sweep conn (stale_pending conn.now minutes) "enqueue_lost" w)

-- The rows after a round, in a session that is not aborted: the two rewrites, one after the other.
pub sweep_round-rows :
    (conn : Conn) (minutes : ℕ) (w : World Job)
    → w.aborted ≡ false
    → (sweep_round conn minutes w).1.rows
      ≡ update_rows
          (stale_running conn.now running_threshold_secs)
          (fail_row conn.now "worker_lost")
          (update_rows (stale_pending conn.now minutes) (fail_row conn.now "enqueue_lost") w.rows)
unfolding sweep_round
sweep_round-rows conn minutes w h = rw (h, sweep_round)

pub sweep_round_aborted :
    (conn : Conn) (minutes : ℕ) (w : World Job)
    → w.aborted ≡ true
    → (sweep_round conn minutes w).1 ≡ w
unfolding sweep_round
sweep_round_aborted conn minutes w h = rw (h, sweep_round)
