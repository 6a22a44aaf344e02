-- ===== src/Journal/Topics/Owned.antt =====
-- On sound tables the row policy's tests agree with tests that do not read the user.
use gubbi.Prelude.{
  ℕ, ◌≡◌, true, false, some, List, [], ◌∷◌, ◌==◌, nat_eq, All, arith, Bool-cases, inl, inr,
}
use gubbi.Pg.{Conn}
use gubbi.Journal.Store.{Topic, Entry, Conversation, owned}
use gubbi.Journal.Rows.{Agree}
use gubbi.Journal.Topics.{topic_by_id, topic_exists}
use gubbi.Journal.Topics.Mutations.{entry_under, conversation_under}
use gubbi.Journal.Sound.{EntryOwned, ConversationOwned, owner_of, unique_idents}

module _ (conn : Conn) where
  pub entry_under-Agree :
      (i user : ℕ) (ts : List Topic)
      → owner_of i ts ≡ some user
      → owned conn.tenant user ≡ true
      → (es : List Entry) → All (EntryOwned ts) es
      → Agree (entry_under conn i) (λ e. e.topic_id == i) es
  entry_under-Agree i user ts owner mine [] h = tt
  entry_under-Agree i user ts owner mine (e ∷ es) (o, h) =
      (ground arith, entry_under-Agree i user ts owner mine es h)

  pub conversation_under-Agree :
      (i user : ℕ) (ts : List Topic)
      → owner_of i ts ≡ some user
      → owned conn.tenant user ≡ true
      → (cs : List Conversation) → All (ConversationOwned ts) cs
      → Agree (conversation_under conn i) (λ c. c.topic_id == i) cs
  conversation_under-Agree i user ts owner mine [] h = tt
  conversation_under-Agree i user ts owner mine (c ∷ cs) (o, h) =
      (ground arith, conversation_under-Agree i user ts owner mine cs h)

  topic_by_id_absent :
      (i : ℕ) (ks : List Topic)
      → topic_exists i ks ≡ false
      → Agree (topic_by_id conn i) (λ k. k.ident == i) ks
  topic_by_id_absent i [] h = tt
  topic_by_id_absent i (k ∷ ks) h = (ground arith, topic_by_id_absent i ks (ground arith))

  pub topic_by_id-Agree :
      (i user : ℕ) (ks : List Topic)
      → unique_idents ks ≡ true
      → owner_of i ks ≡ some user
      → owned conn.tenant user ≡ true
      → Agree (topic_by_id conn i) (λ k. k.ident == i) ks
  unfolding owner_of unique_idents
  topic_by_id-Agree i user [] u o m = tt
  topic_by_id-Agree i user (k ∷ ks) u o m = elim (Bool-cases (k.ident == i)) [
    | inl here ↦ (ground arith, topic_by_id_absent i ks (ground arith))
    | inr there ↦ (ground arith, topic_by_id-Agree i user ks (ground arith) (ground arith) m)
  ]
