-- ===== src/Journal/Entries/Timeline.antt =====
-- get_timeline_counts of gubbi/storage/repositories/entries.py. The numbering of months, `month_of`,
-- is a parameter: PostgreSQL renders them.
use gubbi.Prelude.{
  ℕ, Bool, true, false, ◌&&◌, Option, none, some, List, [], ◌∷◌, ◌++◌, ◌==◌, nat_eq, list_eq, ltb,
  leb, if◌then◌else◌, filter, map, count,
}
use gubbi.Pg.{Conn}
use gubbi.Crypto.Utf8.{Text}
use gubbi.Validation.Topic.{validate_topic}
use gubbi.Journal.Like.{like}
use gubbi.Journal.Store.{
  Topic, Entry, Conversation, Tables, value_error, Exec, pure, raise, fetch, ◌>>=◌, owned, find_row,
}
use gubbi.Journal.Topics.{like_pattern, path_matches, is_live, day_of}
use gubbi.Journal.Entries.{DateText, from_isoformat}

pub data Bucket : Type 0 where
  day month invalid_bucket : Bucket

-- _timeline_bucket_expr.
abbrev pub bucket_key : (ℕ → ℕ) → Bucket → Exec (ℕ → ℕ)
bucket_key month_of day = pure (λ d. d)
bucket_key month_of month = pure month_of
bucket_key month_of invalid_bucket = raise value_error

-- `JOIN topics t ON t.id = ...` with the prefix filter, under the row policy.
abbrev pub topic_passes : Conn → Option Text → ℕ → Topic → Bool
topic_passes conn pattern topic_id k =
    owned conn.tenant k.user && (k.ident == topic_id && path_matches pattern k.path)

abbrev pub has_topic : Conn → Option Text → Tables → ℕ → Bool
has_topic conn pattern t topic_id = elim (find_row (topic_passes conn pattern topic_id) t.topics) [
  | none ↦ false
  | some _ ↦ true
]

abbrev pub within : ℕ → ℕ → ℕ → Bool
within from to d = leb from d && leb d to

-- An entry that is linked to a conversation is counted by the conversation.
abbrev pub is_unlinked : Entry → Bool
is_unlinked e = elim e.conversation_id [ none ↦ true | some _ ↦ false ]

abbrev pub entry_in_range : Conn → Option Text → ℕ → ℕ → Tables → Entry → Bool
entry_in_range conn pattern from to t e =
    owned conn.tenant e.user
    && (within from to e.date
        && (is_live e && (is_unlinked e && has_topic conn pattern t e.topic_id)))

abbrev pub conversation_in_range : Conn → Option Text → ℕ → ℕ → Tables → Conversation → Bool
conversation_in_range conn pattern from to t c =
    owned conn.tenant c.user
    && (within from to (day_of c.created_at) && has_topic conn pattern t c.topic_id)

-- The distinct keys, ascending: `GROUP BY bucket ORDER BY bucket ASC`.
unfoldable pub insert_key : ℕ → List ℕ → List ℕ
insert_key k [] = k ∷ []
insert_key k (j ∷ js) =
    let rest = insert_key k js in
    if k == j then j ∷ js else if ltb k j then k ∷ j ∷ js else j ∷ rest

unfoldable pub sorted_keys : List ℕ → List ℕ
unfolding insert_key
sorted_keys [] = []
sorted_keys (k ∷ ks) = insert_key k (sorted_keys ks)

pub record BucketCount : Type 0 where
  pub bucket : ℕ
  pub entry_count : ℕ
  pub conversation_count : ℕ

abbrev pub count_key : List ℕ → ℕ → ℕ
count_key keys k = count (λ j. j == k) keys

unfoldable pub group_counts : List ℕ → List ℕ → List BucketCount
unfolding sorted_keys
group_counts entries conversations =
    map
      (λ k. record {
        bucket = k;
        entry_count = count_key entries k;
        conversation_count = count_key conversations k;
      })
      (sorted_keys (entries ++ conversations))

abbrev pub timeline_sql : (ℕ → ℕ) → Conn → Option Text → ℕ → ℕ → Tables → List BucketCount
timeline_sql key conn pattern from to t =
    group_counts
      (map (λ (e : Entry). key e.date) (filter (entry_in_range conn pattern from to t) t.entries))
      (map (λ (c : Conversation). key (day_of c.created_at))
        (filter (conversation_in_range conn pattern from to t) t.conversations))

unfoldable pub get_timeline_counts :
    (Text → Text)
    → (month_of : ℕ → ℕ) → Conn
    → (date_from date_to : DateText) → Bucket
    → (topic_prefix : Option Text) → Exec (List BucketCount)
unfolding validate_topic like group_counts
get_timeline_counts lower month_of conn date_from date_to bucket topic_prefix = do
  from ← from_isoformat date_from
  to ← from_isoformat date_to
  pattern ← like_pattern lower topic_prefix
  key ← bucket_key month_of bucket
  fetch conn (timeline_sql key conn pattern from to)
