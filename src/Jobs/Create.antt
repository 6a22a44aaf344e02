-- ===== src/Jobs/Create.antt =====
-- What create_pending answers and leaves, by the state of the table and of the connection.
use gubbi.Prelude.{
  ℕ, String, ◌≡◌, Bool, true, false, ◌&&◌, ◌||◌, some, List, [], ◌∷◌, arith, ◌⊎◌, ◌==◌, nat_eq,
  string_eq, inl, inr, Bool-cases,
}
use gubbi.Pg.{Conn, World, ok, err, already_in_flight, in_failed_transaction}
use gubbi.Jobs.Table.{
  Job, is_active, visible, same_slot, slot_taken, ident_taken, new_job, find_active, insert_row,
}
use gubbi.Jobs.Repository.{create_pending}

-- A row with identifier `i` is active in the slot of `j`.
pub active_in_slot : ℕ → Job → List Job → Bool
active_in_slot i j [] = false
active_in_slot i j (k ∷ js) =
    k.ident == i && (is_active k.status && same_slot j k) || active_in_slot i j js

find_active_of_taken :
    (u : ℕ) (j : Job) (js : List Job)
    → visible (some u) j ≡ true
    → slot_taken j js ≡ true
    → (i : ℕ) × (find_active (some u) j js ≡ some i) × (active_in_slot i j js ≡ true)
unfolding find_active slot_taken active_in_slot
find_active_of_taken u j [] v t = cc
find_active_of_taken u j (k ∷ js) v t =
    elim (Bool-cases (visible (some u) k && (is_active k.status && same_slot j k))) [
      | inl here ↦ (k.ident, ground arith, ground arith)
      | inr there ↦
          let (i, found, active) = find_active_of_taken u j js v (ground arith) in
          (i, ground arith, ground arith)
    ]

-- What a call of create_pending is given: a new identifier, the session's own user, a conversation
-- that exists, and a transaction that is not aborted.
module _ (conn : Conn) (u ident conversation : ℕ) (source : String) (period_start : ℕ)
    (w : World Job) (me : conn.tenant ≡ some u) (fresh : ident_taken ident w.rows ≡ false)
    (exists : conn.references u conversation ≡ true) (healthy : w.aborted ≡ false) where
  -- For the session's own user, a new identifier, a conversation that exists and a session that is
  -- not aborted: outside a transaction create_pending either inserts a pending row, when the slot
  -- is free, and returns its identifier; or leaves the table alone and raises
  -- ExtractionJobAlreadyInFlight with the identifier of a row that is active in the slot.
  pub create_pending_autocommit :
      conn.in_transaction ≡ false
      → (slot_taken (new_job conn ident u conversation source period_start) w.rows ≡ false)
          × (create_pending conn ident u conversation source period_start w ≡ (
            ok ident,
            record w { rows = new_job conn ident u conversation source period_start ∷ w.rows },
          ))
        ⊎ ((i : ℕ) × (active_in_slot i
                (new_job conn ident u conversation source period_start)
                w.rows
              ≡ true)
            × (create_pending conn ident u conversation source period_start w
                ≡ (err (already_in_flight i), w)))
  unfolding create_pending
  create_pending_autocommit auto =
      elim (Bool-cases
        (slot_taken (new_job conn ident u conversation source period_start) w.rows)) [
          | inl taken ↦
              let (i, found, active) =
                find_active_of_taken u (new_job conn ident u conversation source period_start)
                  w.rows (ground arith) taken in
              inr (i, active, ground arith)
          | inr free ↦ inl (free, ground arith)
        ]

  -- For the session's own user, a new identifier, a conversation that exists and a session that is
  -- not aborted: inside a transaction, when the slot is taken, create_pending never reports the
  -- job in flight; it raises InFailedSQLTransactionError and leaves the transaction aborted.
  pub create_pending_in_transaction :
      conn.in_transaction ≡ true
      → slot_taken (new_job conn ident u conversation source period_start) w.rows ≡ true
      → create_pending conn ident u conversation source period_start w
        ≡ (err in_failed_transaction, record w { aborted = true })
  unfolding create_pending
  create_pending_in_transaction inside taken = ground arith

-- For the session's own user and outside a transaction, a retry after a successful call raises
-- ExtractionJobAlreadyInFlight with the identifier that the first call returned, and adds no row.
pub create_pending_retry :
    (conn : Conn) (u ident again conversation : ℕ) (source : String) (period_start later : ℕ)
    (w w' : World Job)
    → conn.tenant ≡ some u
    → conn.in_transaction ≡ false
    → create_pending conn ident u conversation source period_start w ≡ (ok ident, w')
    → create_pending conn again u conversation source later w' ≡ (err (already_in_flight ident), w')
unfolding create_pending insert_row slot_taken ident_taken find_active
create_pending_retry conn u ident again conversation source period_start later w w' me auto first =
    ground arith
