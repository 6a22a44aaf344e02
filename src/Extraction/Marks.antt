-- ===== src/Extraction/Marks.antt =====
-- The processing mark of a conversation: how mark_processed sets it, and that nothing takes it away.
use gubbi.Prelude.{
  ℕ, ◌≡◌, refl, Bool, true, false, ◌&&◌, Option, some, List, [], ◌∷◌, ◌==◌, nat_eq, any, arith,
}
use gubbi.Pg.{Conn}
use gubbi.Journal.Store.{Conversation, find_row, rewrite, owned}
use gubbi.Journal.Keeps.{Keeps, Keeps-execute}
use gubbi.Journal.Conversations.Status.{
  processed_time, is_unprocessed, mark_processed, get_processed_at,
}
use gubbi.Extraction.Persist.{is_processed, check_idempotent}
use gubbi.Extraction.Worker.{State, on_journal}
use gubbi.Extraction.Keeps.{stored}
use gubbi.Extraction.Triples.{After, Triple}

abbrev pub of_tenant : Option ℕ → ℕ → Conversation → Bool
of_tenant tenant i c = owned tenant c.user && c.ident == i

module _ (tenant : Option ℕ) (i : ℕ) where
  -- The tenant sees a conversation with the identifier.
  abbrev pub Exists : List Conversation → Type 0
  Exists cs = any (of_tenant tenant i) cs ≡ true

  -- And it has been processed.
  abbrev pub Processed : List Conversation → Type 0
  Processed cs = is_processed (processed_time (find_row (of_tenant tenant i) cs)) ≡ true

  abbrev marks : ℕ → Option ℕ → ℕ → List Conversation → List Conversation
  marks now who j =
      rewrite (λ c. of_tenant who j c && is_unprocessed c)
        (λ c. record c { processed_at = some now })

  exists-marks :
      (now : ℕ) (who : Option ℕ) (j : ℕ) (cs : List Conversation)
      → any (of_tenant tenant i) (marks now who j cs) ≡ any (of_tenant tenant i) cs
  exists-marks now who j [] = refl
  exists-marks now who j (c ∷ cs) = ground (arith, exists-marks now who j cs)

  Processed-marks :
      (now : ℕ) (who : Option ℕ) (j : ℕ) (cs : List Conversation)
      → Processed cs
      → Processed (marks now who j cs)
  Processed-marks now who j [] h = h
  Processed-marks now who j (c ∷ cs) h = ground (arith, Processed-marks now who j cs)

  marked : (now : ℕ) (cs : List Conversation) → Exists cs → Processed (marks now tenant i cs)
  marked now [] h = cc
  marked now (c ∷ cs) h = ground (arith, marked now cs)

  pub mark_processed-Exists : (conn : Conn) (j : ℕ) → Keeps Exists (mark_processed conn j)
  unfolding mark_processed
  mark_processed-Exists conn j =
      Keeps-execute Exists conn _
        (λ t h. rw (exists-marks conn.now conn.tenant j t.conversations) h)

  pub mark_processed-Processed : (conn : Conn) (j : ℕ) → Keeps Processed (mark_processed conn j)
  unfolding mark_processed
  mark_processed-Processed conn j =
      Keeps-execute Processed conn _ (λ t. Processed-marks conn.now conn.tenant j t.conversations)

  After-mark :
      (conn : Conn) (aborted : Bool) (s : State)
      → conn.tenant ≡ tenant
      → Exists (stored s)
      → After
          (λ _ t. Processed (stored t))
          (on_journal
            (mark_processed conn i)
            (record s { journal = record s.journal { aborted = aborted } }))
  unfolding mark_processed
  After-mark conn true s same h = tt
  After-mark conn false s same h = rw same (marked conn.now (stored s) h)

  -- A mark that is set is there, where the tenant sees the conversation.
  pub mark_processed-Triple :
      (conn : Conn)
      → conn.tenant ≡ tenant
      → Triple
          (λ s. Exists (stored s))
          (on_journal (mark_processed conn i))
          (λ _ s. Processed (stored s))
  mark_processed-Triple conn same s h = After-mark conn s.journal.aborted s same h

  After-check :
      (conn : Conn) (aborted : Bool) (s : State)
      → conn.tenant ≡ tenant
      → Processed (stored s)
      → After
          (λ b _. b ≡ true)
          (check_idempotent conn i (record s { journal = record s.journal { aborted = aborted } }))
  unfolding check_idempotent get_processed_at
  After-check conn true s same h = tt
  After-check conn false s same h = rw same h

  -- The check of a processed conversation answers true.
  pub check_idempotent-Triple :
      (conn : Conn)
      → conn.tenant ≡ tenant
      → Triple (λ s. Processed (stored s)) (check_idempotent conn i) (λ b _. b ≡ true)
  check_idempotent-Triple conn same s h = After-check conn s.journal.aborted s same h
