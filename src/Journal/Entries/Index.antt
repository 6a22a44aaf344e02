-- ===== src/Journal/Entries/Index.antt =====
-- The indexing state of entries, gubbi/storage/repositories/entries.py: mark_indexed,
-- mark_indexed_batch, reset_indexed_at, reset_indexed_at_for_ids, get_unindexed, get_max_indexed_at.
use gubbi.Prelude.{
  ℕ, max, Bool, true, false, ◌&&◌, not, Option, none, some, List, [], ◌∷◌, ◌==◌, nat_eq, ltb,
  if◌then◌else◌, filter, contains, page, sort_by,
}
use gubbi.Pg.{Conn}
use gubbi.Crypto.Utf8.{Text}
use gubbi.Crypto.Cipher.{Aead, ContentCipher, decrypt_content_field}
use gubbi.Journal.Store.{
  Topic, Entry, runtime_error, Exec, pure, raise, fetch, execute, ◌>>=◌, owned, find_row, rewrite,
}
use gubbi.Journal.Topics.{is_live}
use gubbi.Journal.Entries.{entry_by_id, decrypt_field}

abbrev pub stamp : Option ℕ → Entry → Entry
stamp time e = record e { indexed_at = time }

unfoldable pub mark_indexed : Conn → ℕ → Exec (Unit {0})
mark_indexed conn entry_id = execute conn λ t. record t {
  entries = rewrite (entry_by_id conn entry_id) (stamp (some conn.now)) t.entries;
}

-- The connections of the last three bypass the row policy. No statement is sent for an empty list.
unfoldable pub mark_indexed_batch : Conn → List ℕ → Exec (Unit {0})
mark_indexed_batch conn [] = pure tt
mark_indexed_batch conn (i ∷ is) = execute conn λ t. record t {
  entries = rewrite (λ e. contains (i ∷ is) e.ident) (stamp (some conn.now)) t.entries;
}

unfoldable pub reset_indexed_at : Conn → Exec (Unit {0})
reset_indexed_at conn =
    execute conn (λ t. record t { entries = rewrite is_live (stamp none) t.entries })

unfoldable pub reset_indexed_at_for_ids : Conn → List ℕ → Exec (Unit {0})
reset_indexed_at_for_ids conn [] = pure tt
reset_indexed_at_for_ids conn (i ∷ is) = execute conn λ t. record t {
  entries = rewrite (λ e. contains (i ∷ is) e.ident && is_live e) (stamp none) t.entries;
}

-- A row of the batch.
pub record Unindexed : Type 0 where
  pub id : ℕ
  pub user_id : ℕ
  pub content : Text
  pub tags : List Text
  pub date : ℕ
  pub topic : Text
  pub title : Text

abbrev pub is_unindexed : Entry → Bool
is_unindexed e = elim e.indexed_at [ none ↦ true | some _ ↦ false ]

-- `locked` are the rows that another worker holds: SKIP LOCKED passes over them.
abbrev pub claimable : (ℕ → Bool) → ℕ → Entry → Bool
claimable locked last_id e =
    is_live e && (is_unindexed e && (ltb last_id e.ident && not (locked e.ident)))

abbrev pub by_ident : Entry → Entry → Bool
by_ident a b = ltb a.ident b.ident

abbrev pub claim : (ℕ → Bool) → ℕ → ℕ → List Entry → List Entry
claim locked last_id batch_size es =
    page (some batch_size) 0 (sort_by by_ident (filter (claimable locked last_id) es))

-- `JOIN topics`: a row without its topic is not answered.
unfoldable pub with_topics : List Topic → List Entry → List (Entry × Topic)
with_topics ks [] = []
with_topics ks (e ∷ es) =
    let rest = with_topics ks es in
    elim (find_row (λ (k : Topic). k.ident == e.topic_id) ks) [
      | none ↦ rest
      | some k ↦ (e, k) ∷ rest
    ]

abbrev pub unindexed_row : Entry → Topic → Option Text → Exec Unindexed
unindexed_row e k none = raise runtime_error
unindexed_row e k (some plain) = pure (record {
  id = e.ident;
  user_id = e.user;
  content = plain;
  tags = e.tags;
  date = e.date;
  topic = k.path;
  title = k.title;
})

module _ (aead : Aead) (cipher : ContentCipher) where
  unfoldable pub build_batch : List (Entry × Topic) → Exec (List Unindexed)
  unfolding decrypt_content_field
  build_batch [] = pure []
  build_batch ((e, k) ∷ rows) = do
    plain ← decrypt_field aead cipher e.content
    row ← unindexed_row e k plain
    rest ← build_batch rows
    pure (row ∷ rest)

  unfoldable pub get_unindexed : (ℕ → Bool) → Conn → ℕ → ℕ → Exec (List Unindexed)
  unfolding with_topics build_batch
  get_unindexed locked conn last_id batch_size =
      fetch conn (λ t. with_topics t.topics (claim locked last_id batch_size t.entries))
      >>= build_batch

abbrev pub later : Option ℕ → Option ℕ → Option ℕ
later none b = b
later (some a) none = some a
later (some a) (some b) = some (max a b)

unfoldable pub max_indexed : Conn → List Entry → Option ℕ
max_indexed conn [] = none
max_indexed conn (e ∷ es) =
    let rest = max_indexed conn es in
    if owned conn.tenant e.user && is_live e then later e.indexed_at rest else rest

unfoldable pub get_max_indexed_at : Conn → Exec (Option ℕ)
unfolding max_indexed
get_max_indexed_at conn = fetch conn (λ t. max_indexed conn t.entries)
