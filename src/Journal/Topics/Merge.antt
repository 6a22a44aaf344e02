-- ===== src/Journal/Topics/Merge.antt =====
-- What merge does, told without the row policy.
use gubbi.Prelude.{
  ℕ, ◌≡◌, refl, ◌∙◌, Bool, true, false, not, Option, none, some, List, ◌==◌, nat_eq, if◌then◌else◌,
  All-filter, filter, count, arith, Bool-cases, Option-cases, inl, inr,
}
use gubbi.Pg.{Conn}
use gubbi.Journal.Store.{
  Topic, Entry, Conversation, Tables, ready, Audit, ok, err, Exec, pure, ◌>>◌, unique_violation,
  topic_not_found, topic_merge_conflict, value_error, topic_merged, find_row,
}
use gubbi.Journal.Rows.{
  Agree, map_where, rewrite-Agree, count-Agree, filter-not-Agree, any-map_where, any_of_find_row,
}
use gubbi.Journal.Topics.{topic_by_id, topic_exists, topic_referenced}
use gubbi.Journal.Topics.Mutations.{
  MoveCounts, entry_under, conversation_under, move_entry, move_conversation, unique_slugs, merge,
  moved_metadata, topic_audit, require_path, reassign_rows, move_conversations, move_entries,
  delete_topic,
}
use gubbi.Journal.Sound.{IsSound, owner_of-find_row}
use gubbi.Journal.Topics.Owned.{entry_under-Agree, conversation_under-Agree, topic_by_id-Agree}

-- Every row that stood under the source stands under the destination.
abbrev pub moved_entries : Conn → (source into : ℕ) → List Entry → List Entry
moved_entries conn source into = map_where (λ e. e.topic_id == source) (move_entry conn into)

abbrev pub moved_conversations : Conn → (source into : ℕ) → List Conversation → List Conversation
moved_conversations conn source into =
    map_where (λ c. c.topic_id == source) (move_conversation conn into)

-- The source is gone, and the destination has the time of the merge.
abbrev pub merged_topics : Conn → (source into : ℕ) → List Topic → List Topic
merged_topics conn source into ks =
    map_where (λ k. k.ident == into) (λ k. record k { updated_at = conn.now })
      (filter (λ k. not (k.ident == source)) ks)

abbrev pub merged : Conn → (source into : ℕ) → Tables → Tables
merged conn source into t = record t {
  topics = merged_topics conn source into t.topics;
  entries = moved_entries conn source into t.entries;
  conversations = moved_conversations conn source into t.conversations;
}

abbrev pub counts_under : ℕ → Tables → MoveCounts
counts_under source t = record {
  entries = count (λ e. e.topic_id == source) t.entries;
  conversations = count (λ c. c.topic_id == source) t.conversations;
}

module _ (record_audit : Conn → Audit → Exec (Unit {0})) where
  abbrev audited : Conn → (source into actor : ℕ) → Topic → Topic → Exec MoveCounts
  audited conn source into actor a b s =
      let counts = counts_under source s.tables in
      (record_audit conn (topic_audit actor topic_merged into (moved_metadata a.path b.path counts))
          >> pure counts)
        (record s { tables = merged conn source into s.tables })

  abbrev merge_found :
      Conn → (source into actor : ℕ) → Option Topic → Option Topic → Exec MoveCounts
  merge_found conn source into actor none b s = (err topic_not_found, s)
  merge_found conn source into actor (some a) none s = (err topic_not_found, s)
  merge_found conn source into actor (some a) (some b) s =
      if unique_slugs (moved_conversations conn source into s.tables.conversations)
      then audited conn source into actor a b s
      else (err topic_merge_conflict, record s { aborted = conn.in_transaction })

  -- What merge promises.
  unfoldable pub merge_promise : Conn → (source into actor : ℕ) → Exec MoveCounts
  unfolding unique_slugs
  merge_promise conn source into actor s =
      if source == into
      then (err value_error, s)
      else merge_found conn source into actor (find_row (topic_by_id conn source) s.tables.topics)
          (find_row (topic_by_id conn into) s.tables.topics) s

module _ (conn : Conn) (source into : ℕ) (t : Tables) where
  move_conversations_owned :
      Agree (conversation_under conn source) (λ c. c.topic_id == source) t.conversations
      → topic_exists into t.topics ≡ true
      → move_conversations conn source into t ≡ (
          if unique_slugs (moved_conversations conn source into t.conversations)
          then ok (
            count (λ c. c.topic_id == source) t.conversations,
            record t { conversations = moved_conversations conn source into t.conversations },
          )
          else err unique_violation)
  unfolding move_conversations
  move_conversations_owned mine known =
      rw
        (
          count-Agree _ _ t.conversations mine,
          rewrite-Agree _ _ (move_conversation conn into) t.conversations mine,
          known,
        )
        (ground arith)

  move_entries_owned :
      Agree (entry_under conn source) (λ e. e.topic_id == source) t.entries
      → topic_exists into t.topics ≡ true
      → move_entries conn source into t
        ≡ ok (
          count (λ e. e.topic_id == source) t.entries,
          record t { entries = moved_entries conn source into t.entries },
        )
  unfolding move_entries
  move_entries_owned mine known =
      rw
        (
          count-Agree _ _ t.entries mine,
          rewrite-Agree _ _ (move_entry conn into) t.entries mine,
          known,
        )
        (ground arith)

-- The tables between the reassignment and the deletion.
abbrev reassigned : Conn → (source into : ℕ) → Tables → Tables
reassigned conn source into t = record t {
  entries = moved_entries conn source into t.entries;
  conversations = moved_conversations conn source into t.conversations;
}

module _ (conn : Conn) (source into : ℕ) (t : Tables) where
  reassign_rows_owned :
      Agree (conversation_under conn source) (λ c. c.topic_id == source) t.conversations
      → Agree (entry_under conn source) (λ e. e.topic_id == source) t.entries
      → topic_exists into t.topics ≡ true
      → reassign_rows conn source into (ready t) ≡ (
          if unique_slugs (moved_conversations conn source into t.conversations)
          then (ok (counts_under source t), ready (reassigned conn source into t))
          else (err topic_merge_conflict, record (ready t) { aborted = conn.in_transaction }))
  unfolding reassign_rows
  reassign_rows_owned mine_c mine_e known =
      elim (Bool-cases (unique_slugs (moved_conversations conn source into t.conversations))) [
        | inl apart ↦
            rw
              (
                move_conversations_owned conn source into t mine_c known,
                apart,
                move_entries_owned conn source into
                    (record t {
                      conversations = moved_conversations conn source into t.conversations;
                    })
                    mine_e known,
              )
              refl
        | inr clash ↦ rw (move_conversations_owned conn source into t mine_c known, clash) refl
      ]

module _ (conn : Conn) (source into : ℕ) (t : Tables) where
  not_referenced :
      (source == into) ≡ false → topic_referenced source (reassigned conn source into t) ≡ false
  not_referenced differ =
      rw
        (
          any-map_where (λ (e : Entry). e.topic_id == source) (λ (e : Entry). e.topic_id == source)
              (move_entry conn into) t.entries (λ e h. ground arith) (λ e h. h),
          any-map_where (λ (c : Conversation). c.topic_id == source)
              (λ (c : Conversation). c.topic_id == source) (move_conversation conn into)
              t.conversations (λ c h. ground arith) (λ c h. h),
        )
        refl

  delete_topic-reassigned :
      (source == into) ≡ false
      → Agree (topic_by_id conn source) (λ k. k.ident == source) t.topics
      → delete_topic conn source (reassigned conn source into t)
        ≡ ok (
          tt,
          record (reassigned conn source into t) {
            topics = filter (λ k. not (k.ident == source)) t.topics;
          },
        )
  unfolding delete_topic
  delete_topic-reassigned differ mine =
      rw (not_referenced differ, filter-not-Agree _ _ t.topics mine) (ground arith)

All-filter-Agree :
    (p q : Topic → Bool) (keep : Topic → Bool) (ks : List Topic)
    → Agree p q ks
    → Agree p q (filter keep ks)
All-filter-Agree p q keep ks = All-filter (λ k. p k ≡ q k) keep ks

module _ (record_audit : Conn → Audit → Exec (Unit {0})) (conn : Conn) (source into actor : ℕ)
    (t : Tables) (sound : IsSound t) where
  merge_resolved :
      (a b : Topic)
      → (source == into) ≡ false
      → find_row (topic_by_id conn source) t.topics ≡ some a
      → find_row (topic_by_id conn into) t.topics ≡ some b
      → merge record_audit conn source into actor (ready t)
        ≡ merge_found record_audit conn source into actor (some a) (some b) (ready t)
  unfolding merge require_path
  merge_resolved a b differ found_a found_b =
      let (owner_a, mine_a) = owner_of-find_row conn source t.topics a sound.idents found_a in
      let (owner_b, mine_b) = owner_of-find_row conn into t.topics b sound.idents found_b in
      let es =
        entry_under-Agree conn source a.user t.topics owner_a mine_a t.entries
          sound.entries_owned in
      let cs =
        conversation_under-Agree conn source a.user t.topics owner_a mine_a t.conversations
          sound.conversations_owned in
      let ks = topic_by_id-Agree conn source a.user t.topics sound.idents owner_a mine_a in
      let js = topic_by_id-Agree conn into b.user t.topics sound.idents owner_b mine_b in
      let known =
        any_of_find_row (topic_by_id conn into) (λ (k : Topic). k.ident == into) t.topics b
          (λ k h. ground arith) found_b in
      elim (Bool-cases (unique_slugs (moved_conversations conn source into t.conversations))) [
        | inl apart ↦
            rw
              (
                differ,
                found_a,
                found_b,
                reassign_rows_owned conn source into t cs es known,
                apart,
                delete_topic-reassigned conn source into t differ ks,
                rewrite-Agree _ _ (λ (k : Topic). record k { updated_at = conn.now })
                    (filter (λ k. not (k.ident == source)) t.topics)
                    (All-filter-Agree _ _ (λ k. not (k.ident == source)) t.topics js),
              )
              refl
        | inr clash ↦
            rw (differ, found_a, found_b, reassign_rows_owned conn source into t cs es known, clash)
              refl
      ]

  merge_promise_resolved :
      (a b : Topic)
      → (source == into) ≡ false
      → find_row (topic_by_id conn source) t.topics ≡ some a
      → find_row (topic_by_id conn into) t.topics ≡ some b
      → merge_found record_audit conn source into actor (some a) (some b) (ready t)
        ≡ merge_promise record_audit conn source into actor (ready t)
  unfolding merge_promise
  merge_promise_resolved a b differ found_a found_b = rw (differ, found_a, found_b) refl

  -- In a session in which no statement has failed, on sound tables: merge does what merge_promise
  -- says, whatever record_audit does. A merge of a topic into itself is a ValueError, a topic that the
  -- policy hides is not found, and a clash of slugs is a TopicMergeConflict; else every entry and
  -- conversation of the source, deleted ones too, stands under the destination, the source is gone,
  -- one audit row is asked for, and the answer counts the rows that stood under the source. No other
  -- row changes, and no foreign key stops the deletion.
  pub merge-merge_promise :
      merge record_audit conn source into actor (ready t)
      ≡ merge_promise record_audit conn source into actor (ready t)
  unfolding merge merge_promise require_path
  merge-merge_promise = elim (Bool-cases (source == into)) [
    | inl same ↦ rw same refl
    | inr differ ↦ elim (Option-cases (find_row (topic_by_id conn source) t.topics)) [
      | inl absent ↦ rw (differ, absent) refl
      | inr (a, found_a) ↦ elim (Option-cases (find_row (topic_by_id conn into) t.topics)) [
        | inl absent ↦ rw (differ, found_a, absent) refl
        | inr (b, found_b) ↦
            merge_resolved a b differ found_a found_b
            ∙ merge_promise_resolved a b differ found_a found_b
      ]
    ]
  ]
