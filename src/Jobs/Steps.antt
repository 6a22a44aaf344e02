-- ===== src/Jobs/Steps.antt =====
-- The life of a row under any sequence of operations.
use gubbi.Prelude.{
  ℕ, String, ◌≡◌, refl, true, false, none, some, List, [], ◌∷◌, arith, nat_eq, string_eq, inl, inr,
  Bool-cases, if◌then◌else◌,
}
use gubbi.Pg.{Conn, World}
use gubbi.Jobs.Table.{Job, ident_taken, insert_row}
use gubbi.Jobs.Repository.{create_pending, update_rows, fail_row}
use gubbi.Jobs.Sweep.{
  sweep_round, stale_pending, stale_running, running_threshold_secs, sweep_round-rows,
  sweep_round_aborted,
}
use gubbi.Jobs.History.{
  Op, create, start, progress, complete, fail, clean, apply, find_job, stay, Kept, Kept-same,
  Kept-update_then, Kept-rewrite, find_job-update_rows, start-Guarded, progress-Guarded,
  complete-Guarded, fail-Guarded, stale_pending-Guarded, stale_running-Guarded,
}

ident_taken-of-find_job :
    (i : ℕ) (js : List Job) (j : Job) → find_job i js ≡ some j → ident_taken i js ≡ true
unfolding find_job ident_taken
ident_taken-of-find_job i [] j h = cc
ident_taken-of-find_job i (k ∷ js) j h = ground (arith, ident_taken-of-find_job i js j)

module _ (i : ℕ) (w : World Job) (j : Job) (found : find_job i w.rows ≡ some j) where
  Kept-create :
      (c : Conn) (new user conversation : ℕ) (source : String) (period_start : ℕ)
      → find_job i (create_pending c new user conversation source period_start w).1.rows ≡ some j
  unfolding create_pending insert_row find_job
  Kept-create c new user conversation source period_start =
      ground (arith, ident_taken-of-find_job i w.rows j)

  Kept-clean_healthy :
      (c : Conn) (minutes : ℕ)
      → w.aborted ≡ false
      → Kept j (find_job i (sweep_round c minutes w).1.rows)
  Kept-clean_healthy c minutes healthy =
      let pending_row = stale_pending c.now minutes in
      let running_row = stale_running c.now running_threshold_secs in
      let lost_enqueue = fail_row c.now "enqueue_lost" in
      let lost_worker = fail_row c.now "worker_lost" in
      rw (sweep_round-rows c minutes w healthy) (
        rw
          (find_job-update_rows i running_row lost_worker
            (update_rows pending_row lost_enqueue w.rows)
            (if pending_row j then lost_enqueue j else j) (λ k. refl)
            (find_job-update_rows i pending_row lost_enqueue w.rows j (λ k. refl) found))
          (elim (Bool-cases (pending_row j)) [
            | inl e ↦
                let (next, unfinished) = stale_pending-Guarded c.now minutes "enqueue_lost" j e in
                rw e (next, λ done. absurd (unfinished done))
            | inr e ↦ rw e (
                Kept-rewrite running_row lost_worker j
                  (stale_running-Guarded c.now running_threshold_secs "worker_lost"))
          ]))

  Kept-clean : (c : Conn) (minutes : ℕ) → Kept j (find_job i (sweep_round c minutes w).1.rows)
  Kept-clean c minutes = elim (Bool-cases w.aborted) [
    | inl e ↦ rw (sweep_round_aborted c minutes w e) (Kept-same i j w.rows found)
    | inr e ↦ Kept-clean_healthy c minutes e
  ]

  -- One operation, on any connection and with any arguments, leaves every row in place: its status
  -- moves only along pending -> running, failed -> running, active -> completed and active -> failed,
  -- or stays, and a completed row is not changed in any column.
  pub apply-Kept : (op : Op) → Kept j (find_job i (apply op w).rows)
  unfolding apply
  apply-Kept (create c new user conversation source period_start) =
      rw (Kept-create c new user conversation source period_start) (stay j.status, λ _. refl)
  apply-Kept (start c t) =
      Kept-update_then i w j found c _ _ _ (λ k. refl) (start-Guarded c.tenant t c.now)
  apply-Kept (progress c t none none) = Kept-same i j w.rows found
  apply-Kept (progress c t (some a) entries) =
      Kept-update_then i w j found c _ _ _ (λ k. refl)
        (progress-Guarded c.tenant t (some a) entries)
  apply-Kept (progress c t none (some b)) =
      Kept-update_then i w j found c _ _ _ (λ k. refl) (progress-Guarded c.tenant t none (some b))
  apply-Kept (complete c t topics entries cents) =
      Kept-update_then i w j found c _ _ _ (λ k. refl)
        (complete-Guarded c.tenant t c.now topics entries cents)
  apply-Kept (fail c t code) =
      Kept-update_then i w j found c _ _ _ (λ k. refl) (fail-Guarded c.tenant t c.now code)
  apply-Kept (clean c minutes) = Kept-clean c minutes
