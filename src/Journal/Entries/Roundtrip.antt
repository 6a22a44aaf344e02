-- ===== src/Journal/Entries/Roundtrip.antt =====
-- What append stores is what get_text reads, gubbi/storage/repositories/entries.py.
use gubbi.Prelude.{
  ℕ, ◌+◌, ◌≡◌, refl, Bool, true, Option, none, some, List, [], ◌∷◌, length, All, arith, nat_eq, sym,
  subst, ◌∙◌,
}
use gubbi.Pg.{Conn}
use gubbi.Crypto.Utf8.{Bytes, Text, is_scalar}
use gubbi.Crypto.Cipher.{Aead, Keys, ContentCipher, content_cipher, decrypt_content_field}
use gubbi.Crypto.Roundtrip.{Opens, decrypt-encrypt}
use gubbi.Validation.Topic.{validate_topic}
use gubbi.Journal.Store.{
  Topic, Sealed, Entry, Tables, Session, ready, Result, ok, find_row, rewrite, settle,
}
use gubbi.Journal.Topics.{topic_at, topic_by_id, topic_exists, get_id}
use gubbi.Journal.Topics.Mutations.{touch_topic}
use gubbi.Journal.Entries.{
  DateText, live_by_id, new_entry, date_or_today, encrypt_text, encrypt_optional, decrypt_field,
  insert_entry, append_cte, append,
}
use gubbi.Journal.Entries.Read.{get_text}

abbrev Scalars : Text → Type 0
Scalars text = All (λ c. is_scalar c ≡ true) text

abbrev OptionalScalars : Option Text → Type 0
OptionalScalars none = Unit
OptionalScalars (some text) = Scalars text

topic_exists-rewrite :
    (p : Topic → Bool) (f : Topic → Topic) (i : ℕ) (ks : List Topic)
    → ((k : Topic) → (f k).ident ≡ k.ident)
    → topic_exists i (rewrite p f ks) ≡ topic_exists i ks
topic_exists-rewrite p f i [] same = refl
topic_exists-rewrite p f i (k ∷ ks) same =
    ground (arith, same k, topic_exists-rewrite p f i ks same)

topic_exists-find_row :
    (p : Topic → Bool) (ks : List Topic) (k : Topic)
    → find_row p ks ≡ some k
    → topic_exists k.ident ks ≡ true
topic_exists-find_row p [] k found = ground arith
topic_exists-find_row p (j ∷ ks) k found = ground (arith, topic_exists-find_row p ks k)

insert_entry_row :
    (conn : Conn) (user d topic_id : ℕ) (tags : List Text) (content : Text) (f f' : Sealed)
    (t : Tables)
    → conn.tenant ≡ some user
    → topic_exists topic_id t.topics ≡ true
    → insert_entry conn topic_id none d tags f f' content t
      ≡ ok (
        t.next_entry,
        record t {
          entries =
              new_entry t.next_entry user topic_id none d tags f f' content conn.now ∷ t.entries;
          next_entry = t.next_entry + 1;
        },
      )
unfolding insert_entry
insert_entry_row conn user d topic_id tags content f f' t tenant exists = rw (tenant, exists) refl

find_new_entry :
    (conn : Conn) (user d topic_id i : ℕ) (tags : List Text) (content : Text) (f f' : Sealed)
    (es : List Entry)
    → conn.tenant ≡ some user
    → let e = new_entry i user topic_id none d tags f f' content conn.now in
      find_row (live_by_id conn i) (e ∷ es) ≡ some e
find_new_entry conn user d topic_id i tags content f f' es tenant = ground arith

module _ (aead : Aead) (opens : Opens aead) (keys : Keys) (cipher : ContentCipher)
    (made : content_cipher keys ≡ some cipher) where
  -- The columns of a text, which decrypt to it.
  abbrev Reads : Option Text → Sealed → Type 0
  Reads text f = (s : Session) → decrypt_field aead cipher f s ≡ (ok text, s)

  encrypt_text-Reads :
      (drawn : Bytes) (text : Text)
      → length drawn ≡ 11
      → Scalars text
      → (f : Sealed) × ((s : Session) → encrypt_text aead cipher drawn text s ≡ (ok f, s))
        × Reads (some text) f
  encrypt_text-Reads drawn text len scalars =
      let (ciphertext, nonce, seals, active, reads) =
        decrypt-encrypt aead opens keys cipher drawn text made len scalars in
      (
        record { ciphertext = some ciphertext; nonce = some nonce },
        (λ s. rw seals refl),
        (λ s. rw reads refl),
      )

  encrypt_optional-Reads :
      (drawn : Bytes) (text : Option Text)
      → length drawn ≡ 11
      → OptionalScalars text
      → (f : Sealed) × ((s : Session) → encrypt_optional aead cipher drawn text s ≡ (ok f, s))
        × Reads text f
  unfolding decrypt_content_field
  encrypt_optional-Reads drawn none len scalars =
      (record { ciphertext = none; nonce = none }, (λ s. refl), (λ s. refl))
  encrypt_optional-Reads drawn (some text) len scalars = encrypt_text-Reads drawn text len scalars

  append_stores :
      (lower : Text → Text) (conn : Conn) (drawn drawn' : Bytes) (topic path content : Text)
      (reasoning : Option Text) (tags : List Text) (date : Option DateText) (d : ℕ) (k : Topic)
      (f f' : Sealed) (t : Tables)
      → validate_topic lower topic ≡ some path
      → find_row (topic_at conn path) t.topics ≡ some k
      → date_or_today conn date (ready t) ≡ (ok d, ready t)
      → encrypt_text aead cipher drawn content (ready t) ≡ (ok f, ready t)
      → encrypt_optional aead cipher drawn' reasoning (ready t) ≡ (ok f', ready t)
      → append aead cipher lower conn drawn drawn' topic content reasoning tags date (ready t)
        ≡ settle conn (ready t) (append_cte conn k.ident d tags f f' content t)
  unfolding append get_id
  append_stores lower conn drawn drawn' topic path content reasoning tags date d k f f' t valid
        found day seals seals' =
      rw (valid, found, day, seals, seals') refl

  get_text_stored :
      (conn : Conn) (user d topic_id : ℕ) (tags : List Text) (content : Text)
      (reasoning : Option Text) (f f' : Sealed) (t : Tables)
      → conn.tenant ≡ some user
      → topic_exists topic_id t.topics ≡ true
      → Reads (some content) f
      → Reads reasoning f'
      → let (r, s) = settle conn (ready t) (append_cte conn topic_id d tags f f' content t) in
        (r ≡ ok t.next_entry)
        × ((get_text aead cipher conn t.next_entry s).0 ≡ ok (some (some content, reasoning)))
  unfolding get_text
  get_text_stored conn user d topic_id tags content reasoning f f' t tenant exists reads reads' =
      let there =
        topic_exists-rewrite (topic_by_id conn topic_id) (λ k. record k { updated_at = conn.now })
          topic_id t.topics (λ k. refl)
        ∙ exists in
      rw
        (
          insert_entry_row conn user d topic_id tags content f f' (touch_topic conn topic_id t)
              tenant there,
          find_new_entry conn user d topic_id t.next_entry tags content f f' t.entries tenant,
        )
        (refl, rw (reads _, reads' _) refl)

  -- Where AES-GCM opens what it sealed, with a cipher that the constructor accepts, in a tenant's session
  -- in which no statement has failed, for a topic that the tenant has, a date that parses, eleven drawn
  -- bytes for each text, and texts without surrogates: append returns the next identifier, and get_text
  -- of that identifier then reads the content and the reasoning that were given.
  pub append-get_text :
      (lower : Text → Text) (conn : Conn) (drawn drawn' : Bytes) (topic path content : Text)
      (reasoning : Option Text) (tags : List Text) (date : Option DateText) (d user : ℕ) (k : Topic)
      (t : Tables)
      → conn.tenant ≡ some user
      → validate_topic lower topic ≡ some path
      → find_row (topic_at conn path) t.topics ≡ some k
      → date_or_today conn date (ready t) ≡ (ok d, ready t)
      → length drawn ≡ 11
      → length drawn' ≡ 11
      → Scalars content
      → OptionalScalars reasoning
      → let (r, s) =
          append aead cipher lower conn drawn drawn' topic content reasoning tags date (ready t) in
        (r ≡ ok t.next_entry)
        × ((get_text aead cipher conn t.next_entry s).0 ≡ ok (some (some content, reasoning)))
  append-get_text lower conn drawn drawn' topic path content reasoning tags date d user k t tenant
        valid found day len len' scalars scalars' =
      let (f, seals, reads) = encrypt_text-Reads drawn content len scalars in
      let (f', seals', reads') = encrypt_optional-Reads drawn' reasoning len' scalars' in
      subst
        (λ (x : Result ℕ × Session).
          (x.0 ≡ ok t.next_entry)
          × ((get_text aead cipher conn t.next_entry x.1).0 ≡ ok (some (some content, reasoning))))
        (sym (
          append_stores lower conn drawn drawn' topic path content reasoning tags date d k f f' t
            valid found day (seals _) (seals' _)))
        (get_text_stored conn user d k.ident tags content reasoning f f' t tenant
          (topic_exists-find_row (topic_at conn path) t.topics k found) reads reads')
