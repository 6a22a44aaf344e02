-- ===== src/Jobs/Counts.antt =====
-- The counters of the /me endpoint against the transitions.
use gubbi.Prelude.{
  ℕ, ◌+◌, ◌≡◌, refl, true, ◌&&◌, Option, List, [], ◌∷◌, arith, nat_eq, inl, inr, count, Bool-cases,
}
use gubbi.Pg.{Conn, World, ok}
use gubbi.Jobs.Table.{Job, is_active, is_completed, visible, unique_active}
use gubbi.Jobs.Repository.{
  StatusCounts, get_status_counts, mark_completed, complete_row, update_rows, targets,
}
use gubbi.Jobs.Unique.{mark_completed_succeeds}

module _ (tenant : Option ℕ) (i now topics entries cents : ℕ) where
  in_flight_complete :
      (js : List Job)
      → count
            (λ k. visible tenant k && is_active k.status)
            (update_rows (targets tenant i is_active) (complete_row now topics entries cents) js)
          + count (targets tenant i is_active) js
        ≡ count (λ k. visible tenant k && is_active k.status) js
  unfolding update_rows
  in_flight_complete [] = refl
  in_flight_complete (k ∷ js) = ground (arith, in_flight_complete js)

  synced_complete :
      (js : List Job)
      → count
          (λ k. visible tenant k && is_completed k.status)
          (update_rows (targets tenant i is_active) (complete_row now topics entries cents) js)
        ≡ count (λ k. visible tenant k && is_completed k.status) js
          + count (targets tenant i is_active) js
  unfolding update_rows
  synced_complete [] = refl
  synced_complete (k ∷ js) = ground (arith, synced_complete js)

-- If mark_completed answers True on a table that keeps the index, the counters of the same user
-- move by one: one job fewer is in flight, and one more is synced.
pub get_status_counts-mark_completed :
    (c : Conn) (i topics entries cents : ℕ) (w w' : World Job) (before after : StatusCounts)
    → unique_active w.rows ≡ true
    → mark_completed c i topics entries cents w ≡ (ok true, w')
    → get_status_counts c w ≡ (ok before, w)
    → get_status_counts c w' ≡ (ok after, w')
    → (after.in_flight_count + 1 ≡ before.in_flight_count)
      × (after.synced_count ≡ before.synced_count + 1)
unfolding get_status_counts
get_status_counts-mark_completed c i topics entries cents w w' before after u done b a =
    elim (Bool-cases w.aborted) [
      | inl e ↦ ground arith
      | inr e ↦ ground (
        arith,
        mark_completed_succeeds c i topics entries cents w u e,
        in_flight_complete c.tenant i c.now topics entries cents w.rows,
        synced_complete c.tenant i c.now topics entries cents w.rows,
      )
    ]
