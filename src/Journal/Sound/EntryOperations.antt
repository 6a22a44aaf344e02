-- ===== src/Journal/Sound/EntryOperations.antt =====
-- update and move_entries_to_topic on sound tables.
use gubbi.Prelude.{
  ℕ, ◌≡◌, refl, Bool, true, false, not, Option, none, some, List, [], ◌∷◌, ◌==◌, nat_eq, ltb,
  length, filter, contains, ◌∙◌,
}
use gubbi.Pg.{Conn}
use gubbi.Crypto.Utf8.{Bytes, Text}
use gubbi.Crypto.Cipher.{Aead, ContentCipher, Encrypted, sealed, value_error as refused}
use gubbi.Journal.Store.{
  Entry, Tables, Session, Audit, Error, Result, ok, err, Exec, execute, of_option, ◌>>=◌, continue,
  find_row, assertion_error, value_error, topic_not_found, entry_moved, text, number,
}
use gubbi.Journal.Topics.{topic_by_id}
use gubbi.Journal.Topics.Mutations.{touch_topic, topic_audit}
use gubbi.Journal.Entries.{
  DateText, iso, other_form, malformed, from_isoformat, optional_date, columns, Mode, replace,
  append_mode, invalid_mode, appended, content_text, reasoning_text, new_content, new_reasoning,
  content_columns, reasoning_columns, Changes, text_changed, update_entry, drop_embedding,
  delete_embedding, update,
}
use gubbi.Journal.Entries.Move.{
  max_move_ids, dedupe, none_missing, move_chosen, move_entries_to_topic,
}
use gubbi.Journal.Sound.Writes.{
  touch_topic-Good, update_entry-Good, delete_embedding-Good, move_chosen-Leaves,
}
use gubbi.Journal.Sound.Triples.{
  Any, Triple, triple_pure, triple_raise, triple_statement, triple_of_option, triple_require,
  triple_fetch, triple_execute, triple_still, triple_bind, Mine-by_id,
}
use gubbi.Journal.Sound.Operations.{Sound, AuditSound, audit-Triple}

-- What only computes.
abbrev Still : {A : Type 0} → Exec A → Type 0
Still m = (s : Session) → (m s).1 ≡ s

module _ {A B : Type 0} where
  Still-continue :
      (r : Result A) (f : A → Exec B) (s' s : Session)
      → s' ≡ s
      → ((a : A) → Still (f a))
      → (continue r f s').1 ≡ s
  Still-continue (ok a) f s' s same k = k a s' ∙ same
  Still-continue (err e) f s' s same k = same

  Still-bind : (m : Exec A) (f : A → Exec B) → Still m → ((a : A) → Still (f a)) → Still (m >>= f)
  Still-bind m f still k s = Still-continue (m s).0 f (m s).1 s (still s) k

Still-option : {A : Type 0} → (e : Error) (o : Option A) → Still (of_option e o)
Still-option e none s = refl
Still-option e (some a) s = refl

Still-columns : (e : Encrypted) → Still (columns e)
Still-columns (sealed c nonce) s = refl
Still-columns refused s = refl

module _ (aead : Aead) (cipher : ContentCipher) where
  Still-appended : (new : Text) (old : Option Text) → Still (appended aead cipher new old)
  Still-appended new none s = refl
  Still-appended new (some old) s = refl

  Still-content_text :
      (mode : Mode) (e : Entry) (new : Text) → Still (content_text aead cipher mode e new)
  Still-content_text replace e new = λ s. refl
  Still-content_text append_mode e new = Still-bind _ _ (Still-option _ _) (Still-appended new)
  Still-content_text invalid_mode e new = λ s. refl

  Still-reasoning_text :
      (mode : Mode) (e : Entry) (new : Text) → Still (reasoning_text aead cipher mode e new)
  Still-reasoning_text replace e new = λ s. refl
  Still-reasoning_text append_mode e new = Still-bind _ _ (Still-option _ _) (λ old s. refl)
  Still-reasoning_text invalid_mode e new = λ s. refl

  Still-new_content :
      (mode : Mode) (e : Entry) (o : Option Text) → Still (new_content aead cipher mode e o)
  Still-new_content mode e none = λ s. refl
  Still-new_content mode e (some new) =
      Still-bind _ _ (Still-content_text mode e new) (λ plain s. refl)

  Still-new_reasoning :
      (mode : Mode) (e : Entry) (o : Option Text) → Still (new_reasoning aead cipher mode e o)
  Still-new_reasoning mode e none = λ s. refl
  Still-new_reasoning mode e (some new) =
      Still-bind _ _ (Still-reasoning_text mode e new) (λ plain s. refl)

  Still-content_columns :
      (drawn : Bytes) (o : Option Text) → Still (content_columns aead cipher drawn o)
  Still-content_columns drawn none = λ s. refl
  Still-content_columns drawn (some plain) = Still-bind _ _ (Still-columns _) (λ c s. refl)

  Still-reasoning_columns :
      (drawn : Bytes) (o : Option Text) → Still (reasoning_columns aead cipher drawn o)
  Still-reasoning_columns drawn none = λ s. refl
  Still-reasoning_columns drawn (some plain) = Still-bind _ _ (Still-columns _) (λ c s. refl)

Still-isoformat : (d : DateText) → Still (from_isoformat d)
Still-isoformat (iso d) s = refl
Still-isoformat (other_form d) s = refl
Still-isoformat malformed s = refl

Still-optional_date : (o : Option DateText) → Still (optional_date o)
Still-optional_date none = λ s. refl
Still-optional_date (some d) = Still-bind _ _ (Still-isoformat d) (λ day s. refl)

module _ (n : ℕ) (conn : Conn) where
  drop_embedding-Sound : (b : Bool) (i : ℕ) → Sound n (drop_embedding conn b i)
  drop_embedding-Sound false i = triple_pure _ (λ t g f. tt)
  drop_embedding-Sound true i =
      triple_execute {G = Any} conn (delete_embedding i)
        (λ t g f. (delete_embedding-Good n conn i t g, tt))

  written :
      {F : Tables → Type 0}
      → (entry_id topic_id : ℕ) (changes : Changes)
      → Triple n F
          (execute conn (update_entry conn entry_id topic_id changes) >>= λ _.
            drop_embedding conn (text_changed changes) entry_id)
          (λ _ _. Unit)
  written entry_id topic_id changes =
      triple_bind _ _
        (triple_execute {G = Any} conn (update_entry conn entry_id topic_id changes)
          (λ t g f. (update_entry-Good n conn entry_id topic_id changes t g, tt)))
        λ v. drop_embedding-Sound (text_changed changes) entry_id

  pub update-Sound :
      (aead : Aead) (cipher : ContentCipher) (drawn drawn' : Bytes) (entry_id : ℕ)
      (content reasoning : Option Text) (mode : Mode) (date : Option DateText)
      (tags : Option (List Text))
      → Sound n (update aead cipher conn drawn drawn' entry_id content reasoning mode date tags)
  unfolding update
  update-Sound aead cipher drawn drawn' entry_id content reasoning mode date tags =
      triple_bind _ _ (triple_require _ _) λ u. triple_bind _ _ (triple_fetch conn _) λ row.
        triple_bind _ _ (triple_of_option _ _) λ e.
          triple_bind _ _
            (triple_still (new_content aead cipher mode e content)
              (Still-new_content aead cipher mode e content))
            λ plain.
              triple_bind _ _
                (triple_still (new_reasoning aead cipher mode e reasoning)
                  (Still-new_reasoning aead cipher mode e reasoning))
                λ plain'.
                  triple_bind _ _
                    (triple_still (content_columns aead cipher drawn plain)
                      (Still-content_columns aead cipher drawn plain))
                    λ c.
                      triple_bind _ _
                        (triple_still (reasoning_columns aead cipher drawn' plain')
                          (Still-reasoning_columns aead cipher drawn' plain'))
                        λ r.
                          triple_bind _ _
                            (triple_still (optional_date date) (Still-optional_date date))
                            λ d.
                              let changes : Changes = record {
                                content = c;
                                reasoning = r;
                                date = d;
                                tags = tags;
                              } in
                              written entry_id e.topic_id changes

module _ (record_audit : Conn → Audit → Exec (Unit {0})) (audit_sound : AuditSound record_audit)
    (n : ℕ) (conn : Conn) where
  none_missing-Triple :
      {F : Tables → Type 0} → (is : List ℕ) → Triple n F (none_missing is) (λ _ _. Unit)
  none_missing-Triple [] = triple_pure _ (λ t g f. tt)
  none_missing-Triple (i ∷ is) = triple_raise _

  pub move_entries_to_topic-Sound :
      (ids : List ℕ) (dest actor : ℕ)
      → Sound n (move_entries_to_topic record_audit conn ids dest actor)
  unfolding move_entries_to_topic
  move_entries_to_topic-Sound ids dest actor =
      triple_bind _ _ (triple_require conn.in_transaction assertion_error) λ u.
        triple_bind _ _ (triple_require (not (length (dedupe ids) == 0)) value_error) λ v.
          triple_bind _ _
            (triple_require (not (ltb max_move_ids (length (dedupe ids)))) value_error)
            λ w.
              triple_bind _ _ (triple_fetch conn (λ t. find_row (topic_by_id conn dest) t.topics))
                λ row. triple_bind _ _ (triple_of_option topic_not_found row) λ k.
                  triple_bind {R = λ _ _. Unit} _ _
                    (triple_statement conn (move_chosen conn dest (dedupe ids))
                      (λ t g ((f, read), found).
                        move_chosen-Leaves n conn dest (dedupe ids) t g
                          (Mine-by_id n conn dest k t g (read ∙ found))))
                    λ moved.
                      triple_bind _ _
                        (none_missing-Triple (filter (λ i. not (contains moved i)) (dedupe ids)))
                        λ x.
                          triple_bind _ _
                            (triple_execute {G = Any} conn (touch_topic conn dest)
                              (λ t g f. (touch_topic-Good n conn dest t g, tt)))
                            λ y.
                              triple_bind _ _
                                (audit-Triple record_audit audit_sound n conn (
                                  topic_audit actor entry_moved dest (
                                    ("dest_path", text k.path)
                                    ∷ ("entries_moved", number (length (dedupe ids)))
                                    ∷ [])))
                                λ z. triple_pure (length (dedupe ids)) (λ t g f. tt)
