-- ===== src/Journal/Sound/TopicWrites.antt =====
-- The statements of the topic repository on sound tables.
use gubbi.Prelude.{
  ℕ, ◌+◌, ◌<◌, ◌≡◌, refl, Bool, false, not, Option, some, List, [], ◌∷◌, ◌==◌, nat_eq, list_eq, any,
  filter, All, arith, sym, subst, ◌∙◌, inl, inr, Bool-cases, Option-cases,
}
use gubbi.Pg.{Conn}
use gubbi.Crypto.Utf8.{Text}
use gubbi.Journal.Store.{Topic, Entry, Conversation, Tables, rewrite, owned}
use gubbi.Journal.Topics.{topic_referenced, path_taken, unique_paths, topic_by_id, insert_topic}
use gubbi.Journal.Topics.Mutations.{
  unique_slugs, rename_topic, renamed, delete_topic, move_conversations, move_entries, entry_under,
  conversation_under, move_entry, move_conversation,
}
use gubbi.Journal.Sound.{owner_of, unique_idents, EntryOwned, ConversationOwned}
use gubbi.Journal.Sound.Owners
use gubbi.Journal.Sound.Writes.{
  Good, Mine, Leaves, same_owners, entries-Good, conversations-Good, if_Leaves, Mine-user,
}

-- Rows that stand under an old topic stand under it when one with a new identifier is added.
owner_of-added :
    (n : ℕ) (k : Topic) (ks : List Topic)
    → k.ident ≡ n
    → All (λ (j : Topic). j.ident < n) ks
    → (i user : ℕ) → owner_of i ks ≡ some user
    → owner_of i (k ∷ ks) ≡ some user
unfolding owner_of
owner_of-added n k ks new drawn i user o = ground (arith, Owners.owner_of-drawn i n ks user drawn o)

filter_all :
    (p : Topic → Bool) (ks : List Topic) → any p ks ≡ false → filter (λ k. not (p k)) ks ≡ ks
filter_all p [] h = refl
filter_all p (k ∷ ks) h = ground (arith, filter_all p ks)

module _ (conn : Conn) (i : ℕ) (ks : List Topic) where
  abbrev left : List Topic
  left = filter (λ k. not (topic_by_id conn i k)) ks

  left_owner :
      (j user : ℕ) → (j == i) ≡ false → owner_of j ks ≡ some user → owner_of j left ≡ some user
  left_owner j user other o =
      Owners.owner_of-filter (λ k. not (topic_by_id conn i k)) j ks (λ k same. ground arith) ∙ o

  entries_left :
      (es : List Entry)
      → any (λ e. e.topic_id == i) es ≡ false
      → All (EntryOwned ks) es
      → All (EntryOwned left) es
  entries_left [] h owned = tt
  entries_left (e ∷ es) h (o, owned) =
      (left_owner e.topic_id e.user (ground arith) o, entries_left es (ground arith) owned)

  conversations_left :
      (cs : List Conversation)
      → any (λ c. c.topic_id == i) cs ≡ false
      → All (ConversationOwned ks) cs
      → All (ConversationOwned left) cs
  conversations_left [] h owned = tt
  conversations_left (c ∷ cs) h (o, owned) =
      (left_owner c.topic_id c.user (ground arith) o, conversations_left cs (ground arith) owned)

module _ (n : ℕ) (conn : Conn) where
  added :
      (k : Topic) (t : Tables)
      → Good n t
      → k.ident ≡ t.next_topic
      → path_taken k t.topics ≡ false
      → Good n (record t { topics = k ∷ t.topics; next_topic = t.next_topic + 1 })
  unfolding unique_idents unique_paths
  added k t g new free =
      let stays = owner_of-added t.next_topic k t.topics new g.sound.drawn in
      record {
        sound = record {
          idents = rw (new, Owners.drawn_absent t.next_topic t.topics g.sound.drawn) g.sound.idents;
          paths = rw free g.sound.paths;
          slugs = g.sound.slugs;
          drawn = (
            omega arith,
            Owners.drawn-weaken t.next_topic (t.next_topic + 1) t.topics (omega arith)
                g.sound.drawn,
          );
          entries_owned =
              Owners.All-same (EntryOwned t.topics) (EntryOwned (k ∷ t.topics)) t.entries
                (λ e o. stays e.topic_id e.user o) g.sound.entries_owned;
          conversations_owned =
              Owners.All-same (ConversationOwned t.topics) (ConversationOwned (k ∷ t.topics))
                t.conversations (λ c o. stays c.topic_id c.user o) g.sound.conversations_owned;
        };
        floor = omega (arith, g.floor);
      }

  pub insert_topic-Leaves :
      (path title description : Text) (created : ℕ) (t : Tables)
      → Good n t
      → Leaves n (λ _ _. Unit) (insert_topic conn path title description created t)
  unfolding insert_topic
  insert_topic-Leaves path title description created t g = elim (Option-cases conn.tenant) [
    | inl absent ↦ rw absent tt
    | inr (user, tenant) ↦
        let row : Topic = record {
          ident = t.next_topic;
          user = user;
          path = path;
          title = title;
          description = description;
          created_at = created;
          updated_at = conn.now;
        } in
        rw tenant (elim (Bool-cases (path_taken row t.topics)) [
          | inl taken ↦ rw taken tt
          | inr free ↦ rw free (added row t g refl free, tt)
        ])
  ]

  pub move_entries-Leaves :
      (source dest : ℕ) (t : Tables)
      → Good n t
      → Mine conn dest t
      → Leaves n (λ _ u. Mine conn dest u) (move_entries conn source dest t)
  unfolding move_entries
  move_entries-Leaves source dest t g m =
      if_Leaves n conn (λ _ u. Mine conn dest u) _ _ _ _
        (entries-Good n conn t _ g (
          Owners.entries_owned-rewrite (entry_under conn source) (move_entry conn dest) t.topics
            t.entries (λ e p o. Mine-user n conn dest t m e.user (ground arith))
            g.sound.entries_owned))
        (record { user = m.user; tenant = m.tenant; owner = m.owner })

  pub move_conversations-Leaves :
      (source dest : ℕ) (t : Tables)
      → Good n t
      → Mine conn dest t
      → Leaves n (λ _ u. Mine conn dest u) (move_conversations conn source dest t)
  unfolding move_conversations
  move_conversations-Leaves source dest t g m =
      let rows =
        rewrite (conversation_under conn source) (move_conversation conn dest) t.conversations in
      elim (Bool-cases (unique_slugs rows)) [
        | inl free ↦ rw free (
            if_Leaves n conn (λ _ u. Mine conn dest u) _ _ _ _
              (conversations-Good n conn t _ g free (
                Owners.conversations_owned-rewrite (conversation_under conn source)
                  (move_conversation conn dest) t.topics t.conversations
                  (λ c p o. Mine-user n conn dest t m c.user (ground arith))
                  g.sound.conversations_owned))
              (record { user = m.user; tenant = m.tenant; owner = m.owner }))
        | inr clash ↦ rw clash tt
      ]

  pub rename_topic-Leaves :
      (i : ℕ) (path : Text) (title : Option Text) (t : Tables)
      → Good n t
      → Leaves n (λ _ _. Unit) (rename_topic conn i path title t)
  unfolding rename_topic
  rename_topic-Leaves i path title t g =
      let p = topic_by_id conn i in
      let f = renamed conn path title in
      let rows = rewrite p f t.topics in
      elim (Bool-cases (unique_paths rows)) [
        | inl free ↦ rw free (
          same_owners n t rows g
              (λ j. Owners.owner_of-rewrite p f j t.topics (λ k. refl) (λ k. refl))
              (Owners.unique_idents-rewrite p f t.topics (λ k. refl) ∙ g.sound.idents) free
              (Owners.drawn-rewrite p f t.next_topic t.topics (λ k. refl) g.sound.drawn),
          tt,
        )
        | inr taken ↦ rw taken tt
      ]

  unreferenced :
      (i : ℕ) (t : Tables)
      → Good n t
      → topic_referenced i t ≡ false
      → Good n (record t { topics = left conn i t.topics })
  unreferenced i t g free =
      let keep = λ (k : Topic). not (topic_by_id conn i k) in
      record {
        sound = record {
          idents = Owners.unique_idents-filter keep t.topics g.sound.idents;
          paths = Owners.unique_paths-filter keep t.topics g.sound.paths;
          slugs = g.sound.slugs;
          drawn = Owners.drawn-filter keep t.next_topic t.topics g.sound.drawn;
          entries_owned =
              entries_left conn i t.topics t.entries (ground arith) g.sound.entries_owned;
          conversations_owned =
              conversations_left conn i t.topics t.conversations (ground arith)
                g.sound.conversations_owned;
        };
        floor = g.floor;
      }

  unchanged :
      (i : ℕ) (t : Tables)
      → Good n t
      → any (topic_by_id conn i) t.topics ≡ false
      → Good n (record t { topics = left conn i t.topics })
  unchanged i t g absent =
      subst (λ ks. Good n (record t { topics = ks }))
        (sym (filter_all (topic_by_id conn i) t.topics absent)) g

  pub delete_topic-Leaves :
      (i : ℕ) (t : Tables) → Good n t → Leaves n (λ _ _. Unit) (delete_topic conn i t)
  unfolding delete_topic
  delete_topic-Leaves i t g = elim (Bool-cases (any (topic_by_id conn i) t.topics)) [
    | inl there ↦ elim (Bool-cases (topic_referenced i t)) [
      | inl referenced ↦ rw (there, referenced) tt
      | inr free ↦ rw (there, free) (unreferenced i t g free, tt)
    ]
    | inr absent ↦ rw absent (unchanged i t g absent, tt)
  ]
