-- ===== src/Journal/Sound/Writes.antt =====
-- The statements of the repositories on sound tables.
use gubbi.Prelude.{
  ℕ, ◌<◌, ◌≤◌, ◌≡◌, refl, Bool, true, false, Option, none, some, List, nat_eq, list_eq, All,
  if◌then◌else◌, arith, sym, ◌∙◌, ap, inl, inr, Bool-cases,
}
use gubbi.Pg.{Conn}
use gubbi.Crypto.Utf8.{Text}
use gubbi.Journal.Store.{
  Topic, Entry, Conversation, Sealed, Tables, Error, Result, ok, err, rewrite, owned,
}
use gubbi.Journal.Topics.{topic_exists, unique_paths, topic_by_id}
use gubbi.Journal.Topics.Mutations.{unique_slugs, touch_topic}
use gubbi.Journal.Entries.{
  write_content, write_reasoning, write_date, write_tags, clear_index, text_changed, insert_entry,
  append_cte, update_entry, set_clause, Changes, entry_by_id, live_by_id, delete_cte, deleted_topic,
  delete_embedding, soft_delete,
}
use gubbi.Journal.Entries.Move.{move_chosen, chosen, place_in}
use gubbi.Journal.Sound.{IsSound, owner_of, unique_idents, EntryOwned, ConversationOwned}
use gubbi.Journal.Sound.Owners

-- Sound tables whose sequence of topics has passed n.
pub record Good (n : ℕ) (t : Tables) : Type 0 where
  pub sound : IsSound t
  pub floor : n ≤ t.next_topic

-- The session's user owns the topic.
pub record Mine (conn : Conn) (i : ℕ) (t : Tables) : Type 0 where
  pub user : ℕ
  pub tenant : conn.tenant ≡ some user
  pub owner : owner_of i t.topics ≡ some user

-- What a statement leaves: good tables, of which `G` says more.
abbrev pub Leaves : {A : Type 0} → ℕ → (A → Tables → Type 0) → Result (A × Tables) → Type 0
Leaves n G (ok (a, t)) = Good n t × G a t
Leaves n G (err e) = Unit

-- New topics with the same owners.
pub same_owners :
    (n : ℕ) (t : Tables) (ks : List Topic)
    → Good n t
    → ((i : ℕ) → owner_of i ks ≡ owner_of i t.topics)
    → unique_idents ks ≡ true
    → unique_paths ks ≡ true
    → All (λ (k : Topic). k.ident < t.next_topic) ks
    → Good n (record t { topics = ks })
same_owners n t ks g same idents paths drawn = record {
  sound = record {
    idents = idents;
    paths = paths;
    slugs = g.sound.slugs;
    drawn = drawn;
    entries_owned =
        Owners.All-same _ _ t.entries (λ e o. same e.topic_id ∙ o) g.sound.entries_owned;
    conversations_owned =
        Owners.All-same _ _ t.conversations (λ c o. same c.topic_id ∙ o)
          g.sound.conversations_owned;
  };
  floor = g.floor;
}

module _ (ts : List Topic) where
  write_content-owned :
      (o : Option (Sealed × Text)) (e : Entry) → EntryOwned ts e → EntryOwned ts (write_content o e)
  write_content-owned none e h = h
  write_content-owned (some (c, plain)) e h = h

  write_reasoning-owned :
      (o : Option Sealed) (e : Entry) → EntryOwned ts e → EntryOwned ts (write_reasoning o e)
  write_reasoning-owned none e h = h
  write_reasoning-owned (some c) e h = h

  write_date-owned : (o : Option ℕ) (e : Entry) → EntryOwned ts e → EntryOwned ts (write_date o e)
  write_date-owned none e h = h
  write_date-owned (some d) e h = h

  write_tags-owned :
      (o : Option (List Text)) (e : Entry) → EntryOwned ts e → EntryOwned ts (write_tags o e)
  write_tags-owned none e h = h
  write_tags-owned (some tags) e h = h

  clear_index-owned : (b : Bool) (e : Entry) → EntryOwned ts e → EntryOwned ts (clear_index b e)
  clear_index-owned false e h = h
  clear_index-owned true e h = h

  set_clause-owned :
      (now : ℕ) (c : Changes) (e : Entry) → EntryOwned ts e → EntryOwned ts (set_clause now c e)
  set_clause-owned now c e h = clear_index-owned (text_changed c) _ (
      write_tags-owned c.tags _ (
        write_date-owned c.date _
          (write_reasoning-owned c.reasoning _ (write_content-owned c.content e h))))

module _ (n : ℕ) (conn : Conn) where
  pub touch_topic-Good : (i : ℕ) (t : Tables) → Good n t → Good n (touch_topic conn i t)
  touch_topic-Good i t g =
      let touched = λ (k : Topic). record k { updated_at = conn.now } in
      let p = topic_by_id conn i in
      same_owners n t (rewrite p touched t.topics) g
        (λ j. Owners.owner_of-rewrite p touched j t.topics (λ k. refl) (λ k. refl))
        (Owners.unique_idents-rewrite p touched t.topics (λ k. refl) ∙ g.sound.idents)
        (Owners.unique_paths-rewrite p touched t.topics (λ k. refl) (λ k. refl) ∙ g.sound.paths)
        (Owners.drawn-rewrite p touched t.next_topic t.topics (λ k. refl) g.sound.drawn)

  pub touch_topic-Mine : (i j : ℕ) (t : Tables) → Mine conn j t → Mine conn j (touch_topic conn i t)
  touch_topic-Mine i j t m = record {
    user = m.user;
    tenant = m.tenant;
    owner =
        Owners.owner_of-rewrite (topic_by_id conn i)
          (λ (k : Topic). record k { updated_at = conn.now }) j t.topics (λ k. refl) (λ k. refl)
        ∙ m.owner;
  }

  pub entries-Good :
      (t : Tables) (es : List Entry)
      → Good n t
      → All (EntryOwned t.topics) es
      → Good n (record t { entries = es })
  entries-Good t es g owned = record {
    sound = record {
      idents = g.sound.idents;
      paths = g.sound.paths;
      slugs = g.sound.slugs;
      drawn = g.sound.drawn;
      entries_owned = owned;
      conversations_owned = g.sound.conversations_owned;
    };
    floor = g.floor;
  }

  pub if_Leaves :
      {A : Type 0}
      → (G : A → Tables → Type 0) (b : Bool) (a : A) (t : Tables) (e : Error) → Good n t
      → G a t
      → Leaves n G (if b then ok (a, t) else err e)
  if_Leaves G true a t e g h = (g, h)
  if_Leaves G false a t e g h = tt

  pub conversations-Good :
      (t : Tables) (cs : List Conversation)
      → Good n t
      → unique_slugs cs ≡ true
      → All (ConversationOwned t.topics) cs
      → Good n (record t { conversations = cs })
  conversations-Good t cs g slugs owned = record {
    sound = record {
      idents = g.sound.idents;
      paths = g.sound.paths;
      slugs = slugs;
      drawn = g.sound.drawn;
      entries_owned = g.sound.entries_owned;
      conversations_owned = owned;
    };
    floor = g.floor;
  }

  same_user : (user a b : ℕ) → owned (some a) user ≡ true → a ≡ b → user ≡ b
  same_user user a b h e = ground arith

  pub Mine-user :
      (i : ℕ) (t : Tables) (m : Mine conn i t) (user : ℕ)
      → owned conn.tenant user ≡ true
      → owner_of i t.topics ≡ some user
  Mine-user i t m user h = m.owner ∙ ap some (sym (ground (arith, m.tenant)))

  pub insert_entry-Leaves :
      (i : ℕ) (conversation : Option ℕ) (d : ℕ) (tags : List Text) (f f' : Sealed) (search : Text)
      (t : Tables)
      → Good n t
      → Mine conn i t
      → Leaves n (λ _ _. Unit) (insert_entry conn i conversation d tags f f' search t)
  unfolding insert_entry
  insert_entry-Leaves i conversation d tags f f' search t g m =
      rw (m.tenant) (elim (Bool-cases (topic_exists i t.topics)) [
        | inl there ↦ rw there (
          record {
            sound = record {
              idents = g.sound.idents;
              paths = g.sound.paths;
              slugs = g.sound.slugs;
              drawn = g.sound.drawn;
              entries_owned = (m.owner, g.sound.entries_owned);
              conversations_owned = g.sound.conversations_owned;
            };
            floor = g.floor;
          },
          tt,
        )
        | inr absent ↦ rw absent tt
      ])

  pub update_entry-Good :
      (entry_id i : ℕ) (changes : Changes) (t : Tables)
      → Good n t
      → Good n (update_entry conn entry_id i changes t)
  unfolding update_entry
  update_entry-Good entry_id i changes t g = touch_topic-Good i _ (
      entries-Good t _ g (
        Owners.entries_owned-rewrite (entry_by_id conn entry_id) (set_clause conn.now changes)
          t.topics t.entries (λ e p o. set_clause-owned t.topics conn.now changes e o)
          g.sound.entries_owned))

  pub append_cte-Leaves :
      (i d : ℕ) (tags : List Text) (f f' : Sealed) (search : Text) (t : Tables)
      → Good n t
      → Mine conn i t
      → Leaves n (λ _ _. Unit) (append_cte conn i d tags f f' search t)
  append_cte-Leaves i d tags f f' search t g m =
      insert_entry-Leaves i none d tags f f' search (touch_topic conn i t) (touch_topic-Good i t g)
        (touch_topic-Mine i i t m)

  embeddings-Good : (i : ℕ) (t : Tables) → Good n t → Good n (delete_embedding i t)
  embeddings-Good i t g = record {
    sound = record {
      idents = g.sound.idents;
      paths = g.sound.paths;
      slugs = g.sound.slugs;
      drawn = g.sound.drawn;
      entries_owned = g.sound.entries_owned;
      conversations_owned = g.sound.conversations_owned;
    };
    floor = g.floor;
  }

  pub delete_embedding-Good : (i : ℕ) (t : Tables) → Good n t → Good n (delete_embedding i t)
  delete_embedding-Good = embeddings-Good

  deleted_topic-Good :
      (entry_id : ℕ) (found : Option Entry) (t : Tables)
      → Good n t
      → Good n (deleted_topic conn t entry_id found).1
  deleted_topic-Good entry_id none t g = g
  deleted_topic-Good entry_id (some e) t g = touch_topic-Good e.topic_id _ (
      embeddings-Good entry_id _ (
        entries-Good t _ g (
          Owners.entries_owned-rewrite (live_by_id conn entry_id) (soft_delete conn.now) t.topics
            t.entries (λ e p o. o) g.sound.entries_owned)))

  pub delete_cte-Good :
      (entry_id : ℕ) (t : Tables) → Good n t → Good n (delete_cte conn entry_id t).1
  unfolding delete_cte
  delete_cte-Good entry_id t g = deleted_topic-Good entry_id _ t g

  pub move_chosen-Leaves :
      (dest : ℕ) (ids : List ℕ) (t : Tables)
      → Good n t
      → Mine conn dest t
      → Leaves n (λ _ _. Unit) (move_chosen conn dest ids t)
  unfolding move_chosen
  move_chosen-Leaves dest ids t g m =
      if_Leaves _ _ _ _ _
        (entries-Good t _ g (
          Owners.entries_owned-rewrite (chosen conn ids) (place_in conn dest) t.topics t.entries
            (λ e p o. Mine-user dest t m e.user (ground arith)) g.sound.entries_owned))
        tt
