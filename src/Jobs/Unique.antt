-- ===== src/Jobs/Unique.antt =====
-- The partial unique index: no operation breaks it, and which operations it can make raise.
use gubbi.Prelude.{
  ℕ, ◌≡◌, refl, Bool, true, false, Option, List, [], ◌∷◌, arith, ◌==◌, nat_eq, string_eq, count,
}
use gubbi.Pg.{Conn, World, ok, ◌>>=◌}
use gubbi.Jobs.Table.{Job, is_active, same_slot, slot_taken, unique_active}
use gubbi.Jobs.Repository.{
  update_rows, update_where, mark_completed, progress_row, complete_row, targets,
}

-- A rewrite that keeps the slot and activates no row.
abbrev Deactivating : (Job → Job) → Type 0
Deactivating f =
    (k : Job)
    → (is_active (f k).status ≡ true → is_active k.status ≡ true)
      × ((j : Job) → same_slot j (f k) ≡ same_slot j k)
      × ((j : Job) → same_slot (f k) j ≡ same_slot k j)

module _ (test : Job → Bool) (f : Job → Job) (deactivating : Deactivating f) where
  slot_taken-update_rows :
      (j : Job) (js : List Job)
      → slot_taken j js ≡ false
      → slot_taken j (update_rows test f js) ≡ false
  unfolding slot_taken update_rows
  slot_taken-update_rows j [] h = refl
  slot_taken-update_rows j (k ∷ js) h =
      ground (arith, slot_taken-update_rows j js, (deactivating k).0, (deactivating k).1 j)

  slot_taken-rewritten : (k : Job) (js : List Job) → slot_taken (f k) js ≡ slot_taken k js
  unfolding slot_taken
  slot_taken-rewritten k [] = refl
  slot_taken-rewritten k (m ∷ js) = ground (arith, slot_taken-rewritten k js, (deactivating k).2 m)

  unique_active-update_rows :
      (js : List Job) → unique_active js ≡ true → unique_active (update_rows test f js) ≡ true
  unfolding unique_active update_rows
  unique_active-update_rows [] h = refl
  unique_active-update_rows (k ∷ js) h = ground (
    arith,
    unique_active-update_rows js,
    slot_taken-update_rows k js,
    slot_taken-update_rows (f k) js,
    slot_taken-rewritten k js,
    (deactivating k).0,
  )

progress_row-Deactivating : (topics entries : Option ℕ) → Deactivating (progress_row topics entries)
progress_row-Deactivating topics entries k = (λ h. h, λ j. refl, λ j. refl)

complete_row-Deactivating :
    (now topics entries cents : ℕ) → Deactivating (complete_row now topics entries cents)
complete_row-Deactivating now topics entries cents k = (λ h. cc, λ j. refl, λ j. refl)

-- UPDATEs that rewrite rows so raise nothing in a session that is not aborted.
update_where_succeeds :
    (c : Conn) (test : Job → Bool) (f : Job → Job) (w : World Job)
    → Deactivating f
    → unique_active w.rows ≡ true
    → w.aborted ≡ false
    → update_where c test f w
      ≡ (ok (count test w.rows), record w { rows = update_rows test f w.rows })
unfolding update_where
update_where_succeeds c test f w d h healthy =
    rw (healthy, unique_active-update_rows test f d w.rows h)

-- In a session that is not aborted, over a table that keeps the index, mark_completed raises nothing:
-- it rewrites the active row with the identifier and tells whether exactly one row was rewritten.
pub mark_completed_succeeds :
    (c : Conn) (i topics entries cents : ℕ) (w : World Job)
    → unique_active w.rows ≡ true
    → w.aborted ≡ false
    → mark_completed c i topics entries cents w ≡ (
      ok (count (targets c.tenant i is_active) w.rows == 1),
      record w {
        rows =
            update_rows
              (targets c.tenant i is_active)
              (complete_row c.now topics entries cents)
              w.rows;
      },
    )
unfolding mark_completed
mark_completed_succeeds c i topics entries cents w h healthy = rw (
  update_where_succeeds c (targets c.tenant i is_active) (complete_row c.now topics entries cents) w
      (complete_row-Deactivating c.now topics entries cents) h healthy,
  ◌>>=◌,
)
