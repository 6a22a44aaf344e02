-- ===== src/Journal/Sound/Operations.antt =====
-- The operations of the topic and entry repositories on sound tables.
use gubbi.Prelude.{
  ℕ, ◌≡◌, refl, Bool, true, false, ◌&&◌, Option, none, some, List, ◌==◌, nat_eq, arith,
}
use gubbi.Pg.{Conn}
use gubbi.Crypto.Utf8.{Bytes, Text}
use gubbi.Crypto.Cipher.{Aead, ContentCipher, Encrypted, sealed, value_error as refused}
use gubbi.Journal.Store.{Tables, Session, Audit, Error, ok, Exec}
use gubbi.Journal.Topics.{already_exists, create, created_or}
use gubbi.Journal.Topics.Mutations.{
  rename, checked_title, delete_empty, delete_moving, delete_counted, delete_with_reassign, merge,
  reassign_rows, merge_conflict, touch_topic, move_counts,
}
use gubbi.Journal.Entries.{
  DateText, iso, other_form, malformed, date_or_today, columns, encrypt_text, encrypt_optional,
  append, delete, delete_cte,
}
use gubbi.Journal.Sound.Writes.{Good, Mine, touch_topic-Good, append_cte-Leaves, delete_cte-Good}
use gubbi.Journal.Sound.TopicWrites.{
  insert_topic-Leaves, rename_topic-Leaves, delete_topic-Leaves, move_conversations-Leaves,
  move_entries-Leaves,
}
use gubbi.Journal.Sound.Triples.{
  Any, Triple, triple_pure, triple_raise, triple_statement, triple_catch, triple_of_option,
  triple_require, triple_fetch, triple_execute, triple_still, triple_bind, get_id-Triple,
  require_path-Triple, Holds-unit, weaken, forget,
}

-- An operation that leaves good tables, whatever it returns.
abbrev pub Sound : {A : Type 0} → ℕ → Exec A → Type 0
Sound n m = Triple n Any m (λ _ _. Unit)

-- The audit leaves good tables.
abbrev pub AuditSound : (Conn → Audit → Exec (Unit {0})) → Type 0
AuditSound record_audit =
    (n : ℕ) (conn : Conn) (a : Audit) (s : Session)
    → Good n s.tables
    → Good n (record_audit conn a s).1.tables

checked_title-Triple :
    {n : ℕ} {F : Tables → Type 0}
    → (title : Option Text) → Triple n F (checked_title title) (λ _ t. F t)
checked_title-Triple none = triple_pure _ (λ t g f. f)
checked_title-Triple (some title) =
    triple_bind _ _ (triple_of_option _ _) λ c. triple_pure _ (λ t g (f, e). f)

already_exists-Triple :
    {n : ℕ} {A : Type 0} {G : A → Tables → Type 0} → (e : Error) → Triple n Any (already_exists e) G
already_exists-Triple e = record { runs = λ s g f. (ground arith, ground arith) }

merge_conflict-Triple :
    {n : ℕ} {G : ℕ → Tables → Type 0} → (e : Error) → Triple n Any (merge_conflict e) G
merge_conflict-Triple e = record { runs = λ s g f. (ground arith, ground arith) }

module _ (n : ℕ) (conn : Conn) where
  pub create-Sound :
      (lower : Text → Text) (topic title description : Text) (created_at : Option ℕ)
      → Sound n (create lower conn topic title description created_at)
  unfolding create
  create-Sound lower topic title description created_at =
      triple_bind _ _ (triple_of_option _ _) λ path.
        triple_catch _ _
          (triple_statement conn _ (λ t g f.
            insert_topic-Leaves n conn path title description (created_or conn.now created_at) t g))
          already_exists-Triple

  still_date : (date : Option DateText) (s : Session) → (date_or_today conn date s).1 ≡ s
  still_date none s = refl
  still_date (some (iso d)) s = refl
  still_date (some (other_form d)) s = refl
  still_date (some malformed) s = refl

  Still-columns : (e : Encrypted) (s : Session) → (columns e s).1 ≡ s
  Still-columns (sealed c nonce) s = refl
  Still-columns refused s = refl

  module _ (aead : Aead) (cipher : ContentCipher) where
    still_optional :
        (drawn : Bytes) (plain : Option Text) (s : Session)
        → (encrypt_optional aead cipher drawn plain s).1 ≡ s
    still_optional drawn none s = refl
    still_optional drawn (some plain) s = Still-columns _ s

    pub append-Sound :
        (lower : Text → Text) (drawn drawn' : Bytes) (topic content : Text)
        (reasoning : Option Text) (tags : List Text) (date : Option DateText)
        → Sound n (append aead cipher lower conn drawn drawn' topic content reasoning tags date)
    unfolding append
    append-Sound lower drawn drawn' topic content reasoning tags date =
        triple_bind _ _ (get_id-Triple conn lower topic) λ i.
          triple_bind _ _ (triple_still (date_or_today conn date) (still_date date)) λ d.
            triple_bind _ _
              (triple_still (encrypt_text aead cipher drawn content) (Still-columns _))
              λ c.
                triple_bind _ _
                  (triple_still (encrypt_optional aead cipher drawn' reasoning)
                    (still_optional drawn' reasoning))
                  λ r.
                    triple_statement conn _
                      λ t g (f, m). append_cte-Leaves n conn i d tags c r content t g m

  pub delete-Sound : (entry_id : ℕ) → Sound n (delete conn entry_id)
  unfolding delete
  delete-Sound entry_id =
      triple_bind {R = λ _ _. Unit} _ _
        (triple_statement conn (λ t. ok (delete_cte conn entry_id t))
          (λ t g f. (delete_cte-Good n conn entry_id t g, tt)))
        λ o. forget (triple_of_option _ _)

  reassign_rows-Triple :
      (source dest : ℕ)
      → Triple n (Mine conn dest) (reassign_rows conn source dest) (λ _ t. Mine conn dest t)
  unfolding reassign_rows
  reassign_rows-Triple source dest =
      triple_bind _ _
        (triple_catch _ _
          (triple_statement conn _ (λ t g m. move_conversations-Leaves n conn source dest t g m))
          merge_conflict-Triple)
        λ conversations.
          triple_bind _ _
            (triple_statement conn _ (λ t g m. move_entries-Leaves n conn source dest t g m))
            λ entries. triple_pure _ (λ t g m. m)

module _ (record_audit : Conn → Audit → Exec (Unit {0})) (audit_sound : AuditSound record_audit)
    (n : ℕ) (conn : Conn) where
  pub audit-Triple :
      {F : Tables → Type 0} → (a : Audit) → Triple n F (record_audit conn a) (λ _ _. Unit)
  audit-Triple a = record {
    runs = λ s g f. (audit_sound n conn a s g, Holds-unit _ (record_audit conn a s).1.tables);
  }

  pub rename-Sound :
      (lower : Text → Text) (i : ℕ) (path : Text) (title : Option Text) (actor : ℕ)
      → Sound n (rename record_audit lower conn i path title actor)
  unfolding rename
  rename-Sound lower i path title actor = triple_bind _ _ (triple_of_option _ _) λ new_path.
      triple_bind _ _ (require_path-Triple conn i) λ old_path.
        triple_bind _ _ (checked_title-Triple title) λ new_title.
          triple_bind _ _
            (triple_catch {G = λ _ _. Unit} _ _
              (triple_statement conn _
                (λ t g f. rename_topic-Leaves n conn i new_path new_title t g))
              already_exists-Triple)
            λ row.
              triple_bind _ _ (triple_of_option _ _)
                λ k. triple_bind _ _ (audit-Triple _) λ u. triple_pure _ (λ t g f. tt)

  delete_empty-Sound :
      {F : Tables → Type 0}
      → (i : ℕ) (path : Text) (actor : ℕ)
      → Triple n F (delete_empty record_audit conn i path actor) (λ _ _. Unit)
  unfolding delete_empty
  delete_empty-Sound i path actor =
      triple_bind _ _ (triple_statement conn _ (λ t g f. delete_topic-Leaves n conn i t g))
        λ u. triple_bind _ _ (audit-Triple _) λ v. triple_pure _ (λ t g f. tt)

  delete_moving-Sound :
      {F : Tables → Type 0}
      → (i : ℕ) (path : Text) (dest : Option ℕ) (actor : ℕ)
      → Triple n F (delete_moving record_audit conn i path dest actor) (λ _ _. Unit)
  unfolding delete_moving
  delete_moving-Sound i path none actor = triple_raise _
  delete_moving-Sound i path (some dest) actor = triple_bind _ _ (triple_require _ _) λ u.
      triple_bind _ _ (require_path-Triple conn dest) λ dest_path.
        triple_bind _ _ (weaken (λ t (f, m). m) (reassign_rows-Triple n conn i dest)) λ moved.
          triple_bind _ _ (triple_statement conn _ (λ t g f. delete_topic-Leaves n conn i t g)) λ v.
            triple_bind _ _
              (triple_execute {G = Any} conn (touch_topic conn dest)
                (λ t g f. (touch_topic-Good n conn dest t g, tt)))
              λ w.
                triple_bind _ _ (audit-Triple _)
                  λ x. triple_bind _ _ (audit-Triple _) λ y. triple_pure _ (λ t g f. tt)

  counted :
      (i : ℕ) (path : Text) (dest : Option ℕ) (actor : ℕ) (empty : Bool)
      → Sound n (delete_counted record_audit conn i path dest actor empty)
  counted i path dest actor true = delete_empty-Sound i path actor
  counted i path dest actor false = delete_moving-Sound i path dest actor

  pub merge-Sound : (source into actor : ℕ) → Sound n (merge record_audit conn source into actor)
  unfolding merge
  merge-Sound source into actor = triple_bind _ _ (triple_require _ _) λ u.
      triple_bind _ _ (require_path-Triple conn source) λ source_path.
        triple_bind _ _ (require_path-Triple conn into) λ dest_path.
          triple_bind _ _ (weaken (λ t (f, m). m) (reassign_rows-Triple n conn source into))
            λ moved.
              triple_bind _ _
                (triple_statement conn _ (λ t g f. delete_topic-Leaves n conn source t g))
                λ v.
                  triple_bind _ _
                    (triple_execute {G = Any} conn (touch_topic conn into)
                      (λ t g f. (touch_topic-Good n conn into t g, tt)))
                    λ w. triple_bind _ _ (audit-Triple _) λ x. triple_pure _ (λ t g f. tt)

  pub delete_with_reassign-Sound :
      (i : ℕ) (dest : Option ℕ) (actor : ℕ)
      → Sound n (delete_with_reassign record_audit conn i dest actor)
  unfolding delete_with_reassign move_counts
  delete_with_reassign-Sound i dest actor = triple_bind _ _ (require_path-Triple conn i) λ path.
      triple_bind _ _
        (triple_bind _ _ (triple_fetch conn _) λ entries.
          triple_bind _ _ (triple_fetch conn _)
            λ conversations. triple_pure {G = λ _ _. Unit} _ (λ t g f. tt))
        λ counts. counted i path dest actor (counts.entries == 0 && counts.conversations == 0)
