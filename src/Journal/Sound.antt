-- ===== src/Journal/Sound.antt =====
-- What the journal's tables satisfy between transactions.
use gubbi.Prelude.{
  ℕ, ◌<◌, ◌≡◌, refl, Bool, true, false, ◌&&◌, ◌||◌, not, Option, none, some, List, [], ◌∷◌, ◌==◌,
  nat_eq, ltb, if◌then◌else◌, any, All, arith,
}
use gubbi.Pg.{Conn}
use gubbi.Journal.Store.{Topic, Entry, Conversation, Tables, find_row, owned}
use gubbi.Journal.Topics.{topic_by_id, topic_exists, unique_paths}
use gubbi.Journal.Topics.Mutations.{unique_slugs}
pub mod Owners
pub mod Writes
pub mod TopicWrites
pub mod Triples
pub mod Operations
pub mod EntryOperations

-- The user of the topic with an identifier.
unfoldable pub owner_of : ℕ → List Topic → Option ℕ
owner_of i [] = none
owner_of i (k ∷ ks) = let rest = owner_of i ks in if k.ident == i then some k.user else rest

-- topics_pkey.
unfoldable pub unique_idents : List Topic → Bool
unique_idents [] = true
unique_idents (k ∷ ks) = not (topic_exists k.ident ks) && unique_idents ks

abbrev pub EntryOwned : List Topic → Entry → Type 0
EntryOwned ts e = owner_of e.topic_id ts ≡ some e.user

abbrev pub ConversationOwned : List Topic → Conversation → Type 0
ConversationOwned ts c = owner_of c.topic_id ts ≡ some c.user

-- Every entry and every conversation stands under a topic of its own user, and the keys are unique.
pub record IsSound (t : Tables) : Type 0 where
  pub idents : unique_idents t.topics ≡ true
  pub paths : unique_paths t.topics ≡ true
  pub slugs : unique_slugs t.conversations ≡ true
  pub drawn : All (λ (k : Topic). k.ident < t.next_topic) t.topics
  pub entries_owned : All (EntryOwned t.topics) t.entries
  pub conversations_owned : All (ConversationOwned t.topics) t.conversations

owner_of-none : (i : ℕ) (ks : List Topic) → topic_exists i ks ≡ false → owner_of i ks ≡ none
unfolding owner_of
owner_of-none i [] h = refl
owner_of-none i (k ∷ ks) h = ground (arith, owner_of-none i ks)

find_row-none :
    (conn : Conn) (i : ℕ) (ks : List Topic)
    → topic_exists i ks ≡ false
    → find_row (topic_by_id conn i) ks ≡ none
find_row-none conn i [] h = refl
find_row-none conn i (k ∷ ks) h = ground (arith, find_row-none conn i ks)

-- A topic that the row policy shows is the topic with the identifier.
pub owner_of-find_row :
    (conn : Conn) (i : ℕ) (ks : List Topic) (a : Topic)
    → unique_idents ks ≡ true
    → find_row (topic_by_id conn i) ks ≡ some a
    → (owner_of i ks ≡ some a.user) × (owned conn.tenant a.user ≡ true)
unfolding owner_of unique_idents
owner_of-find_row conn i [] a u h = ground arith
owner_of-find_row conn i (k ∷ ks) a u h =
    ground (arith, owner_of-find_row conn i ks a, find_row-none conn i ks)
