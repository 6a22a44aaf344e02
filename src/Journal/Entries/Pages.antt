-- ===== src/Journal/Entries/Pages.antt =====
-- The pages of read, gubbi/storage/repositories/entries.py.
use gubbi.Prelude.{
  ℕ, zero, suc, ◌+◌, ◌<◌, ◌≡◌, refl, Bool, true, Option, none, some, List, [], ◌∷◌, length, count,
  filter, take, drop, page, sort_by, arith, nat_eq, sym, subst, ◌∙◌, ap,
}
use gubbi.Pg.{Conn}
use gubbi.Crypto.Utf8.{Text}
use gubbi.Crypto.Cipher.{Aead, ContentCipher}
use gubbi.Journal.Store.{
  Entry, Tables, Session, ready, Result, ok, err, Exec, continue, pure, fetch,
}
use gubbi.Journal.Topics.{TopicMeta, get, total_or}
use gubbi.Journal.Entries.{DateText}
use gubbi.Journal.Entries.Read.{
  EntryView, validate_date, in_topic, newer, sql_limit, decryption_failed, make_entry, view_of,
  opened_both, build_entries, read,
}

pub length-filter : {A : Type 0} → (p : A → Bool) (xs : List A) → length (filter p xs) ≡ count p xs
length-filter p [] = omega arith
length-filter p (x ∷ xs) = ground (arith, length-filter p xs)

total_or-same :
    {R : Type 0}
    → (n : ℕ) (fallback : Exec ℕ) (rows : List R) (s : Session) → fallback s ≡ (ok n, s)
    → total_or n fallback rows s ≡ (ok n, s)
total_or-same n fallback [] s same = same
total_or-same n fallback (r ∷ rs) s same = refl

suc_add : (n m : ℕ) → suc n + m ≡ suc (n + m)
suc_add n m = omega arith

zero_add : (m : ℕ) → 0 + m ≡ m
zero_add m = omega arith

module _ {A : Type 0} where
  take_nil : (n : ℕ) → take {A = A} n [] ≡ []
  take_nil zero = refl
  take_nil (suc n) = refl

  drop_nil : (n : ℕ) → drop {A = A} n [] ≡ []
  drop_nil zero = refl
  drop_nil (suc n) = refl

  take-append : (n m : ℕ) (xs : List A) → take n (take (n + m) xs) ≡ take n xs
  take-append zero m xs = refl
  take-append (suc n) m [] = rw (suc_add n m) refl
  take-append (suc n) m (x ∷ xs) = rw (suc_add n m, take-append n m xs) refl

  drop-take : (n m : ℕ) (xs : List A) → drop n (take (n + m) xs) ≡ take m (drop n xs)
  drop-take zero m xs = rw (zero_add m) refl
  drop-take (suc n) m [] = rw (suc_add n m, take_nil m) refl
  drop-take (suc n) m (x ∷ xs) = rw (suc_add n m, drop-take n m xs) refl

  drop-drop : (n m : ℕ) (xs : List A) → drop n (drop m xs) ≡ drop (m + n) xs
  drop-drop n zero xs = rw (zero_add n) refl
  drop-drop n (suc m) [] = rw (suc_add m n, drop_nil n) refl
  drop-drop n (suc m) (x ∷ xs) = rw (suc_add m n, drop-drop n m xs) refl

module _ {A B : Type 0} where
  -- The state after a bind whose parts keep it.
  bind-state :
      (r : Result A) (f : A → Exec B) (s' s : Session)
      → s' ≡ s
      → ((a : A) → (f a s).1 ≡ s)
      → (continue r f s').1 ≡ s
  bind-state (ok a) f s' s same k = ap (λ u. (f a u).1) same ∙ k a
  bind-state (err e) f s' s same k = same

pair_eq : {A B : Type 0} {x : A × B} {a : A} {b : B} → x.0 ≡ a → x.1 ≡ b → x ≡ (a, b)
pair_eq h k = rw (h, k) refl

uncons_rest :
    (v : EntryView) (r : Result (List EntryView)) (s' s : Session) (vs : List EntryView)
    → continue r (λ rest. pure (v ∷ rest)) s' ≡ (ok vs, s)
    → (rest : List EntryView) × (v ∷ rest ≡ vs) × (r ≡ ok rest)
uncons_rest v (ok rest) s' s vs h = (rest, cc, refl)
uncons_rest v (err e) s' s vs h = ground arith

module _ (aead : Aead) (cipher : ContentCipher) where
  make_entry-state :
      (e : Entry) (content : Option Text) (reasoning : Option Text) (s : Session)
      → (make_entry e content reasoning s).1 ≡ s
  make_entry-state e none reasoning s = refl
  make_entry-state e (some content) reasoning s = ground arith

  view_of-state :
      (e : Entry) (o : Option (Option Text × Option Text)) (s : Session) → (view_of e o s).1 ≡ s
  view_of-state e none s = make_entry-state e (some decryption_failed) none s
  view_of-state e (some (content, reasoning)) s = make_entry-state e content reasoning s

  build_entries-state : (es : List Entry) (s : Session) → (build_entries aead cipher es s).1 ≡ s
  unfolding build_entries
  build_entries-state [] s = refl
  build_entries-state (e ∷ es) s =
      bind-state (view_of e (opened_both aead cipher e) s).0 _ _ s (view_of-state e _ s) λ v.
        bind-state (build_entries aead cipher es s).0 _ _ s (build_entries-state es s)
          (λ rest. refl)

  abbrev Views : List Entry → List EntryView → Session → Type 0
  Views es vs s = build_entries aead cipher es s ≡ (ok vs, s)

  uncons_view :
      (r : Result EntryView) (es : List Entry) (s' s : Session) (vs : List EntryView)
      → s' ≡ s
      → continue r
          (λ v. λ u.
            continue
              (build_entries aead cipher es u).0
              (λ rest. pure (v ∷ rest))
              (build_entries aead cipher es u).1)
          s'
        ≡ (ok vs, s)
      → (v : EntryView) × (rest : List EntryView) × (v ∷ rest ≡ vs) × (r ≡ ok v) × Views es rest s
  uncons_view (ok v) es s' s vs same h =
      let (rest, split, built) =
        uncons_rest v (build_entries aead cipher es s').0 (build_entries aead cipher es s').1 s vs
          h in
      (
        v,
        rest,
        split,
        refl,
        subst (λ u. build_entries aead cipher es u ≡ (ok rest, u)) same
            (pair_eq built (build_entries-state es s')),
      )
  uncons_view (err e) es s' s vs same h = ground arith

  uncons :
      (e : Entry) (es : List Entry) (vs : List EntryView) (s : Session)
      → Views (e ∷ es) vs s
      → (v : EntryView) × (rest : List EntryView) × (v ∷ rest ≡ vs)
        × ((view_of e (opened_both aead cipher e) s).0 ≡ ok v)
        × Views es rest s
  unfolding build_entries
  uncons e es vs s h =
      uncons_view (view_of e (opened_both aead cipher e) s).0 es
        (view_of e (opened_both aead cipher e) s).1 s vs (view_of-state e _ s) h

  cons :
      (e : Entry) (es : List Entry) (v : EntryView) (rest : List EntryView) (s : Session)
      → (view_of e (opened_both aead cipher e) s).0 ≡ ok v
      → Views es rest s
      → Views (e ∷ es) (v ∷ rest) s
  unfolding build_entries
  cons e es v rest s one more =
      rw (pair_eq one (view_of-state e (opened_both aead cipher e) s), more) refl

  nil_view : (vs : List EntryView) (s : Session) → Views [] vs s → [] ≡ vs
  unfolding build_entries
  nil_view vs s h = cc

  take-Views :
      (n : ℕ) (es : List Entry) (vs : List EntryView) (s : Session)
      → Views es vs s
      → Views (take n es) (take n vs) s
  unfolding build_entries
  take-Views zero es vs s h = refl
  take-Views (suc n) [] vs s h = subst (λ us. Views [] (take (suc n) us) s) (nil_view vs s h) refl
  take-Views (suc n) (e ∷ es) vs s h =
      let (v, rest, split, one, more) = uncons e es vs s h in
      subst (λ us. Views (take (suc n) (e ∷ es)) (take (suc n) us) s) split
        (cons e (take n es) v (take n rest) s one (take-Views n es rest s more))

  drop-Views :
      (n : ℕ) (es : List Entry) (vs : List EntryView) (s : Session)
      → Views es vs s
      → Views (drop n es) (drop n vs) s
  unfolding build_entries
  drop-Views zero es vs s h = h
  drop-Views (suc n) [] vs s h = subst (λ us. Views [] (drop (suc n) us) s) (nil_view vs s h) refl
  drop-Views (suc n) (e ∷ es) vs s h =
      let (v, rest, split, one, more) = uncons e es vs s h in
      subst (λ us. Views (drop (suc n) (e ∷ es)) (drop (suc n) us) s) split
        (drop-Views n es rest s more)

page_answered :
    (r : Result (List EntryView)) (meta meta' : TopicMeta) (views : List EntryView) (n total : ℕ)
    (s' s : Session)
    → continue {B = TopicMeta × (List EntryView × ℕ)} r (λ vs. pure (meta, (vs, n))) s'
      ≡ (ok (meta', (views, total)), s)
    → (r ≡ ok views) × ((meta ≡ meta') × (n ≡ total))
page_answered (ok vs) meta meta' views n total s' s h = (cc, (cc, cc))
page_answered (err e) meta meta' views n total s' s h = ground arith

sql_limit_positive : (n : ℕ) → 0 < n → sql_limit (some n) ≡ some n
sql_limit_positive n h = ground arith

module _ (aead : Aead) (cipher : ContentCipher) (lower : Text → Text) (conn : Conn) (topic : Text)
    (date_from date_to : Option DateText) (meta : TopicMeta) (from to : Option ℕ) (t : Tables)
    (inside : conn.in_transaction ≡ true)
    (valid_from : validate_date date_from (ready t) ≡ (ok from, ready t))
    (valid_to : validate_date date_to (ready t) ≡ (ok to, ready t))
    (found : get lower conn topic (ready t) ≡ (ok (some meta), ready t)) where
  abbrev matching : List Entry
  matching = filter (in_topic conn meta.id from to) t.entries

  abbrev page_answer : List Entry → Result (TopicMeta × (List EntryView × ℕ)) × Session
  page_answer rows =
      let (r, s) = build_entries aead cipher rows (ready t) in
      continue r (λ vs. pure (meta, (vs, length matching))) s

  read-page :
      (limit : Option ℕ) (offset : ℕ)
      → read aead cipher lower conn topic limit date_from date_to offset (ready t)
        ≡ page_answer (page (sql_limit limit) offset (sort_by newer matching))
  unfolding read
  read-page limit offset =
      rw
        (
          inside,
          valid_from,
          valid_to,
          found,
          total_or-same (length matching)
              (fetch conn (λ u. count (in_topic conn meta.id from to) u.entries))
              (page (sql_limit limit) offset (sort_by newer matching)) (ready t)
              (ap (λ k. (ok k, ready t))
                (sym (length-filter (in_topic conn meta.id from to) t.entries))),
        )
        refl

  read_limited :
      (n offset : ℕ)
      → 0 < n
      → read aead cipher lower conn topic (some n) date_from date_to offset (ready t)
        ≡ page_answer (take n (drop offset (sort_by newer matching)))
  read_limited n offset positive =
      read-page (some n) offset
      ∙ ap (λ limit. page_answer (page limit offset (sort_by newer matching)))
          (sql_limit_positive n positive)

  shows :
      (rows : List Entry) (views : List EntryView) (total : ℕ)
      → length matching ≡ total
      → Views aead cipher rows views (ready t)
      → page_answer rows ≡ (ok (meta, (views, total)), ready t)
  shows rows views total counted built = rw (built, counted) refl

  -- In a transaction in which no statement has failed, for a topic and bounds that read accepts, and two
  -- positive limits: where the page of both limits together can be read, the page of the first limit is
  -- its beginning, and the page of the second limit, at an offset that is larger by the first, is the
  -- rest of it. All three report one total.
  pub read-pages :
      (n m offset total : ℕ) (views : List EntryView)
      → 0 < n
      → 0 < m
      → read aead cipher lower conn topic (some (n + m)) date_from date_to offset (ready t)
        ≡ (ok (meta, (views, total)), ready t)
      → (read aead cipher lower conn topic (some n) date_from date_to offset (ready t)
          ≡ (ok (meta, (take n views, total)), ready t))
        × (read aead cipher lower conn topic (some m) date_from date_to (offset + n) (ready t)
            ≡ (ok (meta, (drop n views, total)), ready t))
  read-pages n m offset total views n_positive m_positive both =
      let sorted = sort_by newer matching in
      let here = take (n + m) (drop offset sorted) in
      let (built, (same, counted)) =
        page_answered (build_entries aead cipher here (ready t)).0 meta meta views (length matching)
          total (build_entries aead cipher here (ready t)).1 (ready t)
          (sym (read_limited (n + m) offset (omega arith)) ∙ both) in
      let shown : Views aead cipher here views (ready t) =
        pair_eq built (build_entries-state aead cipher here (ready t)) in
      (
        read_limited n offset n_positive
            ∙ shows (take n (drop offset sorted)) (take n views) total counted (
                subst (λ es. Views aead cipher es (take n views) (ready t))
                  (take-append n m (drop offset sorted))
                  (take-Views aead cipher n here views (ready t) shown)),
        read_limited m (offset + n) m_positive
            ∙ shows (take m (drop (offset + n) sorted)) (drop n views) total counted (
                subst (λ es. Views aead cipher es (drop n views) (ready t))
                  (drop-take n m (drop offset sorted) ∙ ap (take m) (drop-drop n offset sorted))
                  (drop-Views aead cipher n here views (ready t) shown)),
      )
