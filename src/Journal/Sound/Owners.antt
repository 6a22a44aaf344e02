-- ===== src/Journal/Sound/Owners.antt =====
-- Owners of topics under the writes of the repositories.
use gubbi.Prelude.{
  ℕ, ◌<◌, ◌≤◌, ◌≡◌, refl, Bool, true, false, Option, some, List, [], ◌∷◌, nat_eq, list_eq, filter,
  All, if◌then◌else◌, arith, inl, inr, Bool-cases,
}
use gubbi.Journal.Store.{Topic, Entry, Conversation, find_row, rewrite}
use gubbi.Journal.Topics.{topic_exists, path_taken, unique_paths}
use gubbi.Journal.Sound.{owner_of, unique_idents, EntryOwned, ConversationOwned}

module _ {R : Type 0} (p : R → Bool) where
  passes :
      (b : Bool) (r a : R) (rest : Option R)
      → p r ≡ b
      → (if b then some r else rest) ≡ some a
      → (rest ≡ some a → p a ≡ true)
      → p a ≡ true
  passes true r a rest now h k = cc
  passes false r a rest now h k = k h

  -- The first row that passes a test passes it.
  pub find_row_passes : (rs : List R) (a : R) → find_row p rs ≡ some a → p a ≡ true
  find_row_passes [] a h = ground arith
  find_row_passes (r ∷ rs) a h = passes (p r) r a (find_row p rs) refl h (find_row_passes rs a)

topic_exists-find_row :
    (p : Topic → Bool) (ks : List Topic) (k : Topic)
    → find_row p ks ≡ some k
    → topic_exists k.ident ks ≡ true
topic_exists-find_row p [] k found = ground arith
topic_exists-find_row p (j ∷ ks) k found = ground (arith, topic_exists-find_row p ks k)

-- A topic that is found owns its identifier.
pub owner_of_found :
    (p : Topic → Bool) (ks : List Topic) (a : Topic)
    → unique_idents ks ≡ true
    → find_row p ks ≡ some a
    → owner_of a.ident ks ≡ some a.user
unfolding owner_of unique_idents
owner_of_found p [] a u h = ground arith
owner_of_found p (k ∷ ks) a u h =
    ground (arith, owner_of_found p ks a, topic_exists-find_row p ks a)

-- A write to topics that keeps identifiers and users.
pub owner_of-rewrite :
    (p : Topic → Bool) (f : Topic → Topic) (i : ℕ) (ks : List Topic)
    → ((k : Topic) → (f k).ident ≡ k.ident)
    → ((k : Topic) → (f k).user ≡ k.user)
    → owner_of i (rewrite p f ks) ≡ owner_of i ks
unfolding owner_of
owner_of-rewrite p f i [] same mine = refl
owner_of-rewrite p f i (k ∷ ks) same mine =
    ground (arith, same k, mine k, owner_of-rewrite p f i ks same mine)

pub topic_exists-rewrite :
    (p : Topic → Bool) (f : Topic → Topic) (i : ℕ) (ks : List Topic)
    → ((k : Topic) → (f k).ident ≡ k.ident)
    → topic_exists i (rewrite p f ks) ≡ topic_exists i ks
topic_exists-rewrite p f i [] same = refl
topic_exists-rewrite p f i (k ∷ ks) same =
    ground (arith, same k, topic_exists-rewrite p f i ks same)

pub unique_idents-rewrite :
    (p : Topic → Bool) (f : Topic → Topic) (ks : List Topic)
    → ((k : Topic) → (f k).ident ≡ k.ident)
    → unique_idents (rewrite p f ks) ≡ unique_idents ks
unfolding unique_idents
unique_idents-rewrite p f [] same = refl
unique_idents-rewrite p f (k ∷ ks) same =
    ground
      (arith, same k, topic_exists-rewrite p f k.ident ks same, unique_idents-rewrite p f ks same)

path_taken-rewrite :
    (p : Topic → Bool) (f : Topic → Topic) (k k' : Topic) (ks : List Topic)
    → k'.user ≡ k.user
    → k'.path ≡ k.path
    → ((j : Topic) → (f j).user ≡ j.user)
    → ((j : Topic) → (f j).path ≡ j.path)
    → path_taken k' (rewrite p f ks) ≡ path_taken k ks
unfolding path_taken
path_taken-rewrite p f k k' [] u q mine same = refl
path_taken-rewrite p f k k' (j ∷ ks) u q mine same =
    ground (arith, u, q, mine j, same j, path_taken-rewrite p f k k' ks u q mine same)

pub drawn-rewrite :
    (p : Topic → Bool) (f : Topic → Topic) (n : ℕ) (ks : List Topic)
    → ((k : Topic) → (f k).ident ≡ k.ident)
    → All (λ (k : Topic). k.ident < n) ks
    → All (λ (k : Topic). k.ident < n) (rewrite p f ks)
drawn-rewrite p f n [] same h = tt
drawn-rewrite p f n (k ∷ ks) same (less, h) =
    (ground (arith, same k), drawn-rewrite p f n ks same h)

-- A write that gives every changed row to a topic of the row's user.
pub entries_owned-rewrite :
    (p : Entry → Bool) (f : Entry → Entry) (ts : List Topic) (es : List Entry)
    → ((e : Entry) → p e ≡ true → EntryOwned ts e → EntryOwned ts (f e))
    → All (EntryOwned ts) es
    → All (EntryOwned ts) (rewrite p f es)
entries_owned-rewrite p f ts [] moves h = tt
entries_owned-rewrite p f ts (e ∷ es) moves (o, h) = (
  elim (Bool-cases (p e)) [ inl now ↦ rw now (moves e now o) | inr later ↦ rw later o ],
  entries_owned-rewrite p f ts es moves h,
)

pub conversations_owned-rewrite :
    (p : Conversation → Bool) (f : Conversation → Conversation) (ts : List Topic)
    (cs : List Conversation)
    → ((c : Conversation) → p c ≡ true → ConversationOwned ts c → ConversationOwned ts (f c))
    → All (ConversationOwned ts) cs
    → All (ConversationOwned ts) (rewrite p f cs)
conversations_owned-rewrite p f ts [] moves h = tt
conversations_owned-rewrite p f ts (c ∷ cs) moves (o, h) = (
  elim (Bool-cases (p c)) [ inl now ↦ rw now (moves c now o) | inr later ↦ rw later o ],
  conversations_owned-rewrite p f ts cs moves h,
)

-- The rows stay owned when the topics change but not their owners.
pub All-same :
    {A : Type 0} → (P Q : A → Type 0) (xs : List A) → ((x : A) → P x → Q x) → All P xs → All Q xs
All-same P Q [] k h = tt
All-same P Q (x ∷ xs) k (p, h) = (k x p, All-same P Q xs k h)

-- A new topic, whose identifier is above all others.
pub owner_of-drawn :
    (i n : ℕ) (ks : List Topic) (user : ℕ)
    → All (λ (k : Topic). k.ident < n) ks
    → owner_of i ks ≡ some user
    → i < n
unfolding owner_of
owner_of-drawn i n [] user h o = ground arith
owner_of-drawn i n (k ∷ ks) user (less, h) o = ground (arith, owner_of-drawn i n ks user h)

pub drawn_absent :
    (n : ℕ) (ks : List Topic) → All (λ (k : Topic). k.ident < n) ks → topic_exists n ks ≡ false
drawn_absent n [] h = refl
drawn_absent n (k ∷ ks) (less, h) = ground (arith, drawn_absent n ks h)

pub drawn-weaken :
    (n m : ℕ) (ks : List Topic)
    → n ≤ m
    → All (λ (k : Topic). k.ident < n) ks
    → All (λ (k : Topic). k.ident < m) ks
drawn-weaken n m [] less h = tt
drawn-weaken n m (k ∷ ks) less (l, h) = (omega arith, drawn-weaken n m ks less h)

-- The topics that a deletion leaves.
module _ (keep : Topic → Bool) where
  pub owner_of-filter :
      (i : ℕ) (ks : List Topic)
      → ((k : Topic) → k.ident ≡ i → keep k ≡ true)
      → owner_of i (filter keep ks) ≡ owner_of i ks
  unfolding owner_of
  owner_of-filter i [] h = refl
  owner_of-filter i (k ∷ ks) h = ground (arith, h k, owner_of-filter i ks h)

  topic_exists-filter :
      (i : ℕ) (ks : List Topic)
      → topic_exists i ks ≡ false
      → topic_exists i (filter keep ks) ≡ false
  topic_exists-filter i [] h = refl
  topic_exists-filter i (k ∷ ks) h = ground (arith, topic_exists-filter i ks)

  pub unique_idents-filter :
      (ks : List Topic) → unique_idents ks ≡ true → unique_idents (filter keep ks) ≡ true
  unfolding unique_idents
  unique_idents-filter [] h = refl
  unique_idents-filter (k ∷ ks) h =
      ground (arith, topic_exists-filter k.ident ks, unique_idents-filter ks)

  path_taken-filter :
      (j : Topic) (ks : List Topic)
      → path_taken j ks ≡ false
      → path_taken j (filter keep ks) ≡ false
  unfolding path_taken
  path_taken-filter j [] h = refl
  path_taken-filter j (k ∷ ks) h = ground (arith, path_taken-filter j ks)

  pub unique_paths-filter :
      (ks : List Topic) → unique_paths ks ≡ true → unique_paths (filter keep ks) ≡ true
  unfolding unique_paths
  unique_paths-filter [] h = refl
  unique_paths-filter (k ∷ ks) h = ground (arith, path_taken-filter k ks, unique_paths-filter ks)

  pub drawn-filter :
      (n : ℕ) (ks : List Topic)
      → All (λ (k : Topic). k.ident < n) ks
      → All (λ (k : Topic). k.ident < n) (filter keep ks)
  drawn-filter n [] h = tt
  drawn-filter n (k ∷ ks) (less, h) = elim (Bool-cases (keep k)) [
    | inl kept ↦ rw kept (less, drawn-filter n ks h)
    | inr gone ↦ rw gone (drawn-filter n ks h)
  ]

pub unique_paths-rewrite :
    (p : Topic → Bool) (f : Topic → Topic) (ks : List Topic)
    → ((j : Topic) → (f j).user ≡ j.user)
    → ((j : Topic) → (f j).path ≡ j.path)
    → unique_paths (rewrite p f ks) ≡ unique_paths ks
unfolding unique_paths
unique_paths-rewrite p f [] mine same = refl
unique_paths-rewrite p f (k ∷ ks) mine same = elim (Bool-cases (p k)) [
  | inl now ↦
      rw
        (
          now,
          path_taken-rewrite p f k (f k) ks (mine k) (same k) mine same,
          unique_paths-rewrite p f ks mine same,
        )
        refl
  | inr later ↦
      rw
        (
          later,
          path_taken-rewrite p f k k ks refl refl mine same,
          unique_paths-rewrite p f ks mine same,
        )
        refl
]
