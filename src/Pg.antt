-- ===== src/Pg.antt =====
-- What the repositories rely on of a PostgreSQL connection (asyncpg): statements that succeed or
-- raise, the row-level tenant, and the rule that a failed statement aborts an open transaction.
use gubbi.Prelude.{ℕ, Bool, Option, List, ◌≡◌, refl, if◌then◌else◌}

-- The exceptions that reach the code: asyncpg's, and the repositories' own.
pub data Error : Type 0 where
  unique_violation foreign_key_violation insufficient_privilege in_failed_transaction : Error
  already_in_flight : ℕ → Error
  runtime_error : Error

pub data Result {ℓ} (A : Type ℓ) : Type ℓ where
  ok : A → Result A
  err : Error → Result A

-- A connection as the code has set it up. `tenant` is app_current_user_active(): `none` where the
-- setting is unset or its user is deleted. `references` are the foreign keys' parents.
pub record Conn : Type 0 where
  pub tenant : Option ℕ
  pub now : ℕ
  pub in_transaction : Bool
  pub references : ℕ → ℕ → Bool

-- The rows that the session sees, and whether its transaction is aborted.
pub record World (R : Type 0) : Type 0 where
  pub rows : List R
  pub aborted : Bool

abbrev pub Exec : Type 0 → Type 0 → Type 0
Exec R A = World R → Result A × World R

module _ {R A : Type 0} where
  abbrev pub pure : A → Exec R A
  pure a w = (ok a, w)

  abbrev pub raise : Error → Exec R A
  raise e w = (err e, w)

  -- A statement that has been evaluated: its new rows, or its error.
  abbrev settle : Conn → World R → Result (A × List R) → Result A × World R
  settle conn w (ok (a, rows)) = (ok a, record w { rows = rows })
  settle conn w (err e) = (err e, record w { aborted = conn.in_transaction })

  -- One SQL statement. In an aborted transaction every statement is refused.
  abbrev pub statement : Conn → (List R → Result (A × List R)) → Exec R A
  statement conn run w =
      if w.aborted then (err in_failed_transaction, w) else settle conn w (run w.rows)

module _ {R A B : Type 0} where
  abbrev continue : Result A → (A → Exec R B) → Exec R B
  continue (ok a) f w = f a w
  continue (err e) f w = (err e, w)

  infixl 5 ◌>>=◌ ◌>>◌
  abbrev pub ◌>>=◌ : Exec R A → (A → Exec R B) → Exec R B
  ◌>>=◌ m f w = let (r, w') = m w in continue r f w'

  abbrev pub ◌>>◌ : Exec R A → Exec R B → Exec R B
  m >> n = m >>= λ _. n

module _ {R A : Type 0} where
  -- `try: m; except E as e: handler(e)`.
  abbrev handle : Result A → (Error → Exec R A) → Exec R A
  handle (ok a) handler w = (ok a, w)
  handle (err e) handler w = handler e w

  abbrev pub catch : Exec R A → (Error → Exec R A) → Exec R A
  catch m handler w = let (r, w') = m w in handle r handler w'

module _ {R A B : Type 0} where
  state-continue-pure :
      (r : Result A) (f : A → B) (w : World R) → (continue r (λ a. pure (f a)) w).1 ≡ w
  state-continue-pure (ok a) f w = refl
  state-continue-pure (err e) f w = refl

  -- A statement followed by a pure answer leaves what the statement leaves.
  pub state-bind-pure :
      (m : Exec R A) (f : A → B) (w : World R) → ((m >>= λ a. pure (f a)) w).1 ≡ (m w).1
  state-bind-pure m f w = state-continue-pure (m w).0 f (m w).1
