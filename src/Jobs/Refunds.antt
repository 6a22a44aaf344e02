-- ===== src/Jobs/Refunds.antt =====
-- What one round of the orphan sweep does to the table, and which charges it hands back.
use gubbi.Prelude.{
  ℕ, ◌≡◌, refl, ap, ◌∙◌, false, List, [], ◌∷◌, ◌++◌, arith, map, filter, if◌then◌else◌,
}
use gubbi.Pg.{Conn, World}
use gubbi.Jobs.Table.{Job}
use gubbi.Jobs.Repository.{update_rows, fail_row}
use gubbi.Jobs.Sweep.{
  refund_of, stale_pending, stale_running, running_threshold_secs, sweep_round, sweep_round-rows,
}

-- A row after the round, told from the row before it.
pub swept : ℕ → ℕ → Job → Job
swept now minutes k =
    if stale_pending now minutes k
    then fail_row now "enqueue_lost" k
    else if stale_running now running_threshold_secs k
    then fail_row now "worker_lost" k
    else k

module _ (now minutes : ℕ) where
  two_rewrites :
      (js : List Job)
      → update_rows
          (stale_running now running_threshold_secs)
          (fail_row now "worker_lost")
          (update_rows (stale_pending now minutes) (fail_row now "enqueue_lost") js)
        ≡ map (swept now minutes) js
  unfolding update_rows swept
  two_rewrites [] = refl
  two_rewrites (k ∷ js) = ground (arith, two_rewrites js)

  stale_running-after_first :
      (js : List Job)
      → map refund_of (
          filter
            (stale_running now running_threshold_secs)
            (update_rows (stale_pending now minutes) (fail_row now "enqueue_lost") js))
        ≡ map refund_of (filter (stale_running now running_threshold_secs) js)
  unfolding update_rows
  stale_running-after_first [] = refl
  stale_running-after_first (k ∷ js) = ground (arith, stale_running-after_first js)

pub sweep_round_lem :
    (c : Conn) (minutes : ℕ) (w : World Job)
    → w.aborted ≡ false
    → ((sweep_round c minutes w).1.rows ≡ map (swept c.now minutes) w.rows)
      × ((sweep_round c minutes w).0
          ≡ map refund_of (filter (stale_pending c.now minutes) w.rows)
            ++ map refund_of (filter (stale_running c.now running_threshold_secs) w.rows))
unfolding sweep_round
sweep_round_lem c minutes w healthy = (
  sweep_round-rows c minutes w healthy ∙ two_rewrites c.now minutes w.rows,
  rw (healthy, sweep_round)
      (ap (λ rs. map refund_of (filter (stale_pending c.now minutes) w.rows) ++ rs)
        (stale_running-after_first c.now minutes w.rows)),
)

module _ (now minutes : ℕ) where
  stale_pending-swept :
      (js : List Job)
      → map refund_of (filter (stale_pending now minutes) (map (swept now minutes) js)) ≡ []
  unfolding swept
  stale_pending-swept [] = refl
  stale_pending-swept (k ∷ js) = ground (arith, stale_pending-swept js)

  stale_running-swept :
      (js : List Job)
      → map refund_of
          (filter (stale_running now running_threshold_secs) (map (swept now minutes) js))
        ≡ []
  unfolding swept
  stale_running-swept [] = refl
  stale_running-swept (k ∷ js) = ground (arith, stale_running-swept js)

sweep_round_healthy :
    (c : Conn) (minutes : ℕ) (w : World Job)
    → w.aborted ≡ false
    → (sweep_round c minutes w).1.aborted ≡ false
unfolding sweep_round
sweep_round_healthy c minutes w h = rw (h, sweep_round)

-- In a session that is not aborted, a second round at the same time refunds nothing: no charge is
-- handed back twice.
pub sweep_round_again :
    (c : Conn) (minutes : ℕ) (w : World Job)
    → w.aborted ≡ false
    → (sweep_round c minutes (sweep_round c minutes w).1).0 ≡ []
sweep_round_again c minutes w healthy =
    (sweep_round_lem c minutes (sweep_round c minutes w).1
      (sweep_round_healthy c minutes w healthy)).1
    ∙ rw (sweep_round_lem c minutes w healthy).0
        (rw (stale_pending-swept c.now minutes w.rows, stale_running-swept c.now minutes w.rows))
