-- ===== src/Journal/Sound/Triples.antt =====
-- Operations on sound tables: a rule for each way in which the code composes them.
use gubbi.Prelude.{
  ℕ, ◌≡◌, refl, Bool, true, false, Option, none, some, nat_eq, if◌then◌else◌, arith, sym, subst,
  ◌∙◌, ap,
}
use gubbi.Pg.{Conn}
use gubbi.Crypto.Utf8.{Text}
use gubbi.Journal.Store.{
  Topic, Tables, Session, Error, Result, ok, err, in_failed_transaction, Exec, pure, raise, settle,
  statement, fetch, execute, of_option, require, catch, handle, continue, ◌>>=◌, owned, find_row,
}
use gubbi.Journal.Topics.{topic_at, topic_by_id, get_id}
use gubbi.Journal.Topics.Mutations.{require_path}
use gubbi.Journal.Sound.Owners
use gubbi.Journal.Sound.Writes.{Good, Mine, Leaves}

abbrev pub Any : Tables → Type 0
Any t = Unit

abbrev pub Holds : {A : Type 0} → (A → Tables → Type 0) → Result A → Tables → Type 0
Holds G (ok a) t = G a t
Holds G (err e) t = Unit

-- On good tables that satisfy F, the operation leaves good tables, and where it returns they satisfy G.
pub record Triple (n : ℕ) {A : Type 0} (F : Tables → Type 0) (m : Exec A) (G : A → Tables → Type 0)
    : Type 0 where
  pub runs :
      (s : Session)
      → Good n s.tables
      → F s.tables
      → Good n (m s).1.tables × Holds G (m s).0 (m s).1.tables

module _ {n : ℕ} {A : Type 0} {F : Tables → Type 0} {G : A → Tables → Type 0} where
  pub triple_pure : (a : A) → ((t : Tables) → Good n t → F t → G a t) → Triple n F (pure a) G
  triple_pure a k = record { runs = λ s g f. (g, k s.tables g f) }

  pub triple_raise : (e : Error) → Triple n F (raise e) G
  triple_raise e = record { runs = λ s g f. (g, tt) }

module _ (n : ℕ) {A : Type 0} (G : A → Tables → Type 0) where
  settled :
      (conn : Conn) (r : Result (A × Tables)) (s : Session)
      → Good n s.tables
      → Leaves n G r
      → Good n (settle conn s r).1.tables × Holds G (settle conn s r).0 (settle conn s r).1.tables
  settled conn (ok (a, t)) s g l = l
  settled conn (err e) s g l = (g, tt)

  stated :
      (aborted : Bool) (conn : Conn) (r : Result (A × Tables)) (s : Session)
      → Good n s.tables
      → Leaves n G r
      → let o = if aborted then (err in_failed_transaction, s) else settle conn s r in
        Good n o.1.tables × Holds G o.0 o.1.tables
  stated true conn r s g l = (g, tt)
  stated false conn r s g l = settled conn r s g l

  handled :
      (r : Result A) (handler : Error → Exec A) (s : Session)
      → ((e : Error) → Triple n Any (handler e) G)
      → Good n s.tables
      → Holds G r s.tables
      → Good n (handle r handler s).1.tables
        × Holds G (handle r handler s).0 (handle r handler s).1.tables
  handled (ok a) handler s k g h = (g, h)
  handled (err e) handler s k g h = (k e).runs s g tt

module _ {n : ℕ} {A : Type 0} {F : Tables → Type 0} {G : A → Tables → Type 0} where
  pub triple_statement :
      (conn : Conn) (run : Tables → Result (A × Tables))
      → ((t : Tables) → Good n t → F t → Leaves n G (run t))
      → Triple n F (statement conn run) G
  triple_statement conn run leaves = record {
    runs = λ s g f. stated n G s.aborted conn (run s.tables) s g (leaves s.tables g f);
  }

  pub triple_catch :
      (m : Exec A) (handler : Error → Exec A)
      → Triple n F m G
      → ((e : Error) → Triple n Any (handler e) G)
      → Triple n F (catch m handler) G
  triple_catch m handler k l = record {
    runs = λ s g f. let (g', h) = k.runs s g f in handled n G (m s).0 handler (m s).1 l g' h;
  }

module _ (n : ℕ) (F : Tables → Type 0) where
  optional :
      {A : Type 0}
      → (e : Error) (o : Option A) (s : Session) → Good n s.tables
      → F s.tables
      → Good n (of_option e o s).1.tables
        × Holds (λ a t. F t × (o ≡ some a)) (of_option e o s).0 (of_option e o s).1.tables
  optional e none s g f = (g, tt)
  optional e (some a) s g f = (g, (f, refl))

module _ {n : ℕ} {F : Tables → Type 0} where
  pub triple_of_option :
      {A : Type 0}
      → (e : Error) (o : Option A) → Triple n F (of_option e o) (λ a t. F t × (o ≡ some a))
  triple_of_option e o = record { runs = optional n F e o }

  pub triple_require : (b : Bool) (e : Error) → Triple n F (require b e) (λ _ t. F t)
  triple_require true e = record { runs = λ s g f. (g, f) }
  triple_require false e = record { runs = λ s g f. (g, tt) }

  pub triple_fetch :
      {A : Type 0}
      → (conn : Conn) (read : Tables → A) → Triple n F (fetch conn read) (λ a t. F t × (read t ≡ a))
  triple_fetch conn read = triple_statement conn (λ t. ok (read t, t)) (λ t g f. (g, (f, refl)))

  pub triple_execute :
      {G : Tables → Type 0}
      → (conn : Conn) (write : Tables → Tables)
      → ((t : Tables) → Good n t → F t → Good n (write t) × G (write t))
      → Triple n F (execute conn write) (λ _ t. G t)
  triple_execute conn write leaves = triple_statement conn (λ t. ok (tt, write t)) leaves

module _ {A : Type 0} (F : Tables → Type 0) where
  still-Holds : (r : Result A) (t : Tables) → F t → Holds (λ _ u. F u) r t
  still-Holds (ok a) t f = f
  still-Holds (err e) t f = tt

module _ {n : ℕ} {A : Type 0} {F : Tables → Type 0} where
  -- What only computes leaves the session alone.
  pub triple_still : (m : Exec A) → ((s : Session) → (m s).1 ≡ s) → Triple n F m (λ _ t. F t)
  triple_still m still = record {
    runs = λ s g f. (
      subst (λ u. Good n u.tables) (sym (still s)) g,
      still-Holds F (m s).0 (m s).1.tables (subst (λ u. F u.tables) (sym (still s)) f),
    );
  }

module _ (n : ℕ) {A B : Type 0} (R : A → Tables → Type 0) (G : B → Tables → Type 0) where
  continued :
      (r : Result A) (f : A → Exec B) (s : Session)
      → ((a : A) → Triple n (R a) (f a) G)
      → Good n s.tables
      → Holds R r s.tables
      → Good n (continue r f s).1.tables × Holds G (continue r f s).0 (continue r f s).1.tables
  continued (ok a) f s k g h = (k a).runs s g h
  continued (err e) f s k g h = (g, tt)

pub triple_bind :
    {n : ℕ} {A B : Type 0} {F : Tables → Type 0} {R : A → Tables → Type 0} {G : B → Tables → Type 0}
    → (m : Exec A) (f : A → Exec B) → Triple n F m R
    → ((a : A) → Triple n (R a) (f a) G)
    → Triple n F (m >>= f) G
triple_bind {n} {R = R} {G = G} m f k l = record {
  runs = λ s g h. let (g', r) = k.runs s g h in continued n R G (m s).0 f (m s).1 l g' r;
}

pub Holds-unit : {A : Type 0} (r : Result A) (t : Tables) → Holds (λ _ _. Unit) r t
Holds-unit (ok a) t = tt
Holds-unit (err e) t = tt

-- A stronger condition, and nothing said of the result.
pub weaken :
    {n : ℕ} {A : Type 0} {E F : Tables → Type 0} {m : Exec A} {G : A → Tables → Type 0}
    → ((t : Tables) → E t → F t)
    → Triple n F m G
    → Triple n E m G
weaken k h = record { runs = λ s g e. h.runs s g (k s.tables e) }

pub forget :
    {n : ℕ} {A : Type 0} {F : Tables → Type 0} {m : Exec A} {G : A → Tables → Type 0}
    → Triple n F m G
    → Triple n F m (λ _ _. Unit)
forget {m = m} h = record { runs = λ s g f. ((h.runs s g f).0, Holds-unit (m s).0 (m s).1.tables) }

owned_tenant : (o : Option ℕ) (user : ℕ) → owned o user ≡ true → o ≡ some user
owned_tenant none user h = ground arith
owned_tenant (some u) user h = ap some (ground arith)

same_ident : (conn : Conn) (i : ℕ) (k : Topic) → topic_by_id conn i k ≡ true → k.ident ≡ i
same_ident conn i k h = ground arith

Mine-found :
    (n : ℕ) (conn : Conn) (p : Topic → Bool) (k : Topic) (t : Tables)
    → Good n t
    → find_row p t.topics ≡ some k
    → owned conn.tenant k.user ≡ true
    → Mine conn k.ident t
Mine-found n conn p k t g found mine = record {
  user = k.user;
  tenant = owned_tenant conn.tenant k.user mine;
  owner = Owners.owner_of_found p t.topics k g.sound.idents found;
}

pub Mine-by_id :
    (n : ℕ) (conn : Conn) (i : ℕ) (k : Topic) (t : Tables)
    → Good n t
    → find_row (topic_by_id conn i) t.topics ≡ some k
    → Mine conn i t
Mine-by_id n conn i k t g here =
    let passed : topic_by_id conn i k ≡ true =
      Owners.find_row_passes (topic_by_id conn i) t.topics k here in
    subst (λ j. Mine conn j t) (same_ident conn i k passed)
      (Mine-found n conn (topic_by_id conn i) k t g here (ground arith))

Mine-at :
    (n : ℕ) (conn : Conn) (path : Text) (k : Topic) (t : Tables)
    → Good n t
    → find_row (topic_at conn path) t.topics ≡ some k
    → Mine conn k.ident t
Mine-at n conn path k t g here =
    let passed : topic_at conn path k ≡ true =
      Owners.find_row_passes (topic_at conn path) t.topics k here in
    Mine-found n conn (topic_at conn path) k t g here (ground arith)

module _ {n : ℕ} (conn : Conn) where
  pub get_id-Triple :
      {F : Tables → Type 0}
      → (lower : Text → Text) (topic : Text)
      → Triple n F (get_id lower conn topic) (λ i t. F t × Mine conn i t)
  unfolding get_id
  get_id-Triple lower topic = triple_bind _ _ (triple_of_option _ _) λ path.
      triple_bind _ _ (triple_fetch conn (λ t. find_row (topic_at conn path) t.topics)) λ row.
        triple_bind _ _ (triple_of_option _ _) λ k.
          triple_pure _ (λ t g ((f, read), found). (f.0, Mine-at n conn path k t g (read ∙ found)))

  pub require_path-Triple :
      {F : Tables → Type 0}
      → (i : ℕ) → Triple n F (require_path conn i) (λ _ t. F t × Mine conn i t)
  unfolding require_path
  require_path-Triple i =
      triple_bind _ _ (triple_fetch conn (λ t. find_row (topic_by_id conn i) t.topics)) λ row.
        triple_bind _ _ (triple_of_option _ _) λ k.
          triple_pure _ (λ t g ((f, read), found). (f, Mine-by_id n conn i k t g (read ∙ found)))
