-- ===== src/Jobs/Revive.antt =====
-- mark_running on a failed job whose slot another job has taken meanwhile.
use gubbi.Prelude.{ℕ, ◌≡◌, refl, Bool, true, false, some, List, [], ◌∷◌, arith, nat_eq, string_eq}
use gubbi.Pg.{Conn, World, err, unique_violation}
use gubbi.Jobs.Table.{Job, failed, may_start, same_slot, slot_taken, unique_active, visible}
use gubbi.Jobs.Repository.{update_rows, update_where, mark_running, start_row, targets}
use gubbi.Jobs.History.{find_job}

module _ (test : Job → Bool) (now : ℕ) where
  -- Starting rows frees no slot.
  slot_taken-started :
      (j : Job) (js : List Job)
      → slot_taken j js ≡ true
      → slot_taken j (update_rows test (start_row now) js) ≡ true
  unfolding slot_taken update_rows
  slot_taken-started j [] h = h
  slot_taken-started j (k ∷ js) h = ground (arith, slot_taken-started j js)

  slot_taken-start_row :
      (j : Job) (js : List Job) → slot_taken (start_row now j) js ≡ slot_taken j js
  unfolding slot_taken
  slot_taken-start_row j [] = refl
  slot_taken-start_row j (k ∷ js) = ground (arith, slot_taken-start_row j js)

  -- A started row takes its slot.
  slot_taken-by_started :
      (i : ℕ) (r k : Job) (js : List Job)
      → find_job i js ≡ some r
      → test r ≡ true
      → same_slot k r ≡ true
      → slot_taken k (update_rows test (start_row now) js) ≡ true
  unfolding slot_taken update_rows find_job
  slot_taken-by_started i r k [] h t s = cc
  slot_taken-by_started i r k (m ∷ js) h t s = ground (arith, slot_taken-by_started i r k js)

  same_slot_symm : (j k : Job) → same_slot j k ≡ true → same_slot k j ≡ true
  same_slot_symm j k h = ground arith

  revive_conflict :
      (i : ℕ) (r : Job) (js : List Job)
      → find_job i js ≡ some r
      → test r ≡ true
      → r.status ≡ failed
      → slot_taken r js ≡ true
      → unique_active (update_rows test (start_row now) js) ≡ false
  unfolding unique_active update_rows find_job slot_taken
  revive_conflict i r [] h t e s = cc
  revive_conflict i r (k ∷ js) h t e s = ground (
    arith,
    revive_conflict i r js,
    slot_taken-started k js,
    slot_taken-by_started i r k js,
    slot_taken-start_row k (update_rows test (start_row now) js),
    same_slot_symm r k,
  )

-- In a session that is not aborted, reviving a failed job of the session's user while another job
-- is active for the same conversation and source raises a unique violation, and changes no row.
pub mark_running_conflict :
    (c : Conn) (i : ℕ) (r : Job) (w : World Job)
    → find_job i w.rows ≡ some r
    → visible c.tenant r ≡ true
    → r.ident ≡ i
    → r.status ≡ failed
    → slot_taken r w.rows ≡ true
    → w.aborted ≡ false
    → mark_running c i w ≡ (err unique_violation, record w { aborted = c.in_transaction })
unfolding mark_running update_where
mark_running_conflict c i r w found seen same dead taken healthy = rw (
  healthy,
  revive_conflict (targets c.tenant i may_start) c.now i r w.rows found (ground arith) dead taken,
)
