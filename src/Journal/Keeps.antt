-- ===== src/Journal/Keeps.antt =====
-- Operations that keep a property of the conversations' table, with a rule for each way in which the
-- code composes them.
use gubbi.Prelude.{Bool, true, false, Option, none, some, List, if◌then◌else◌}
use gubbi.Pg.{Conn}
use gubbi.Journal.Store.{
  Conversation, Tables, Session, Error, Result, ok, err, Exec, pure, statement, settle, fetch,
  execute, in_failed_transaction, of_option, require, catch, handle, continue, ◌>>=◌,
}

abbrev pub conversations_of : Session → List Conversation
conversations_of s = s.tables.conversations

module _ (P : List Conversation → Type 0) where
  abbrev pub Keeps : {A : Type 0} → Exec A → Type 0
  Keeps m = (s : Session) → P (conversations_of s) → P (conversations_of (m s).1)

  -- What a statement does to tables that satisfy the property.
  abbrev pub Writes : {A : Type 0} → Result (A × Tables) → Type 0
  Writes (ok (a, t)) = P t.conversations
  Writes (err e) = Unit

  module _ {A : Type 0} where
    pub Keeps-pure : (a : A) → Keeps (pure a)
    Keeps-pure a s h = h

    pub Keeps-of_option : (e : Error) (o : Option A) → Keeps (of_option e o)
    Keeps-of_option e none s h = h
    Keeps-of_option e (some a) s h = h

    keeps_settle :
        (conn : Conn) (r : Result (A × Tables)) (s : Session)
        → P (conversations_of s)
        → Writes r
        → P (conversations_of (settle conn s r).1)
    keeps_settle conn (ok (a, t)) s h w = w
    keeps_settle conn (err e) s h w = h

    keeps_unless :
        (aborted : Bool) (conn : Conn) (r : Result (A × Tables)) (s : Session)
        → P (conversations_of s)
        → Writes r
        → P (
            conversations_of
              (if aborted then (err in_failed_transaction, s) else settle conn s r).1)
    keeps_unless true conn r s h w = h
    keeps_unless false conn r s h w = keeps_settle conn r s h w

    pub Keeps-statement :
        (conn : Conn) (run : Tables → Result (A × Tables))
        → ((t : Tables) → P t.conversations → Writes (run t))
        → Keeps (statement conn run)
    Keeps-statement conn run writes s h =
        keeps_unless s.aborted conn (run s.tables) s h (writes s.tables h)

    pub Keeps-fetch : (conn : Conn) (read : Tables → A) → Keeps (fetch conn read)
    Keeps-fetch conn read = Keeps-statement conn (λ t. ok (read t, t)) (λ t h. h)

    keeps_handle :
        (r : Result A) (handler : Error → Exec A) (s : Session)
        → ((e : Error) → Keeps (handler e))
        → P (conversations_of s)
        → P (conversations_of (handle r handler s).1)
    keeps_handle (ok a) handler s k h = h
    keeps_handle (err e) handler s k h = k e s h

    pub Keeps-catch :
        (m : Exec A) (handler : Error → Exec A)
        → Keeps m
        → ((e : Error) → Keeps (handler e))
        → Keeps (catch m handler)
    Keeps-catch m handler k l s h = keeps_handle (m s).0 handler (m s).1 l (k s h)

  pub Keeps-execute :
      (conn : Conn) (write : Tables → Tables)
      → ((t : Tables) → P t.conversations → P (write t).conversations)
      → Keeps (execute conn write)
  Keeps-execute conn write k = Keeps-statement conn (λ t. ok (tt, write t)) k

  pub Keeps-require : (b : Bool) (e : Error) → Keeps (require b e)
  Keeps-require true e s h = h
  Keeps-require false e s h = h

  module _ {A B : Type 0} where
    keeps_continue :
        (r : Result A) (f : A → Exec B) (s : Session)
        → ((a : A) → Keeps (f a))
        → P (conversations_of s)
        → P (conversations_of (continue r f s).1)
    keeps_continue (ok a) f s k h = k a s h
    keeps_continue (err e) f s k h = h

    pub Keeps-bind :
        (m : Exec A) (f : A → Exec B) → Keeps m → ((a : A) → Keeps (f a)) → Keeps (m >>= f)
    Keeps-bind m f k l s h = keeps_continue (m s).0 f (m s).1 l (k s h)
