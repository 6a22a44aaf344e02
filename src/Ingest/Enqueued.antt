-- ===== src/Ingest/Enqueued.antt =====
-- Each extraction that a request enqueues has its job in the table.
use gubbi.Prelude.{
  ℕ, suc, ◌≡◌, refl, subst, true, ◌&&◌, ◌||◌, not, none, some, List, [], ◌∷◌, ◌++◌, nat_eq, ==_self,
  Bool-cases, inl, inr, arith, ◌⊎◌,
}
use gubbi.Jobs.Table.{Job, ident_taken, new_job, visible, insert_row, slot_taken}
use gubbi.Jobs.Repository.{create_pending}
use gubbi.Ingest.Batch.{
  Saved, Incoming, Setup, Batch, exists_row, transaction_2, after_transaction_2, charge, refund,
  charge_and_create, ingest_one, ingest_all, start, ingest_conversations,
}

-- A transaction 2 in a transaction either leaves the table, or adds the job that it returns.
abbrev job_of : Setup → Incoming → Job
job_of s c = new_job s.conn c.job_id s.user c.conversation_id c.key.platform s.period_start

transaction_2-cases :
    (s : Setup) (c : Incoming) (rows : List Job)
    → s.conn.in_transaction ≡ true
    → (transaction_2 s c rows ≡ (none, rows))
      ⊎ (transaction_2 s c rows ≡ (some c.job_id, job_of s c ∷ rows))
unfolding transaction_2 create_pending insert_row
transaction_2-cases s c rows inside = elim (Bool-cases (visible s.conn.tenant (job_of s c))) [
  | inr hidden ↦ inl (ground arith)
  | inl seen ↦ elim (Bool-cases (ident_taken c.job_id rows || slot_taken (job_of s c) rows)) [
    | inl taken ↦ inl (ground arith)
    | inr free ↦ elim (Bool-cases (s.conn.references s.user c.conversation_id)) [
      | inr missing ↦ inl (ground arith)
      | inl known ↦ elim (Bool-cases c.audit_raises) [
        | inl raised ↦ inl (ground arith)
        | inr fine ↦ inr (ground arith)
      ]
    ]
  ]
]

-- Every task's job is in the table.
unfoldable pub TasksHaveJobs : List (ℕ × ℕ) → List Job → Type 0
TasksHaveJobs [] jobs = Unit
TasksHaveJobs (t ∷ ts) jobs = (ident_taken t.0 jobs ≡ true) × TasksHaveJobs ts jobs

TasksHaveJobs-more :
    (ts : List (ℕ × ℕ)) (j : Job) (jobs : List Job)
    → TasksHaveJobs ts jobs
    → TasksHaveJobs ts (j ∷ jobs)
unfolding TasksHaveJobs ident_taken
TasksHaveJobs-more [] j jobs h = tt
TasksHaveJobs-more (t ∷ ts) j jobs (first, h) =
    (ground (arith, first), TasksHaveJobs-more ts j jobs h)

TasksHaveJobs-append :
    (ts : List (ℕ × ℕ)) (t : ℕ × ℕ) (jobs : List Job)
    → TasksHaveJobs ts jobs
    → ident_taken t.0 jobs ≡ true
    → TasksHaveJobs (ts ++ (t ∷ [])) jobs
unfolding TasksHaveJobs
TasksHaveJobs-append [] t jobs h new = (new, tt)
TasksHaveJobs-append (u ∷ ts) t jobs (first, h) new = (first, TasksHaveJobs-append ts t jobs h new)

abbrev AllHaveJobs : Batch → Type 0
AllHaveJobs b = TasksHaveJobs b.enqueue_tasks b.jobs

refund-AllHaveJobs :
    (s : Setup) (c : Incoming) (b : Batch) → AllHaveJobs b → AllHaveJobs (refund s c b)
refund-AllHaveJobs s c b h = elim (Bool-cases s.has_budget) [
  | inr off ↦ rw off h
  | inl on ↦ elim (Bool-cases c.refund_raises) [ inl e ↦ rw (on, e) h | inr e ↦ rw (on, e) h ]
]

charge-AllHaveJobs : (s : Setup) (b : Batch) → AllHaveJobs b → AllHaveJobs (charge s b)
charge-AllHaveJobs s b h = elim (Bool-cases s.has_budget) [ inl on ↦ rw on h | inr off ↦ rw off h ]

jobs-charge : (s : Setup) (b : Batch) → (charge s b).jobs ≡ b.jobs
jobs-charge s b = elim (Bool-cases s.has_budget) [ inl on ↦ rw on refl | inr off ↦ rw off refl ]

module _ (s : Setup) (inside : s.conn.in_transaction ≡ true) where
  after_transaction_2-AllHaveJobs :
      (c : Incoming) (b : Batch) (rows : List Job)
      → AllHaveJobs b
      → b.jobs ≡ rows
      → AllHaveJobs (after_transaction_2 s c b (transaction_2 s c rows))
  unfolding ident_taken
  after_transaction_2-AllHaveJobs c b rows h same = elim (transaction_2-cases s c rows inside) [
    | inl failed ↦ rw failed (
        refund-AllHaveJobs s c (record b { jobs = rows; skipped_error = suc b.skipped_error })
          (subst (TasksHaveJobs b.enqueue_tasks) same h))
    | inr done ↦ rw done (
        TasksHaveJobs-append b.enqueue_tasks (c.job_id, c.conversation_id) (job_of s c ∷ rows)
          (TasksHaveJobs-more b.enqueue_tasks (job_of s c) rows
            (subst (TasksHaveJobs b.enqueue_tasks) same h))
          (ground (arith, ==_self c.job_id)))
  ]

  charge_and_create-AllHaveJobs :
      (c : Incoming) (b : Batch) → AllHaveJobs b → AllHaveJobs (charge_and_create s c b)
  unfolding charge_and_create
  charge_and_create-AllHaveJobs c b h = elim (Bool-cases (s.has_budget && not c.granted)) [
    | inl denied ↦ rw denied h
    | inr granted ↦ rw granted (
        after_transaction_2-AllHaveJobs c (charge s b) b.jobs (charge-AllHaveJobs s b h)
          (jobs-charge s b))
  ]

  ingest_one-AllHaveJobs :
      (c : Incoming) (b : Batch) → AllHaveJobs b → AllHaveJobs (ingest_one s c b)
  unfolding ingest_one
  ingest_one-AllHaveJobs c b h = elim (Bool-cases (exists_row c.key b.saved_rows)) [
    | inl old ↦ rw old h
    | inr new ↦ elim (Bool-cases c.raced) [
      | inl lost ↦ rw (new, lost) h
      | inr first ↦
          rw (new, first)
            (charge_and_create-AllHaveJobs c
              (record b {
                saved_rows = c.key ∷ b.saved_rows;
                conversations_saved = suc b.conversations_saved;
              })
              h)
    ]
  ]

  ingest_all-AllHaveJobs :
      (cs : List Incoming) (b : Batch) → AllHaveJobs b → AllHaveJobs (ingest_all s cs b)
  unfolding ingest_all
  ingest_all-AllHaveJobs [] b h = h
  ingest_all-AllHaveJobs (c ∷ cs) b h =
      ingest_all-AllHaveJobs cs (ingest_one s c b) (ingest_one-AllHaveJobs c b h)

  -- On a connection inside a transaction, as the handler opens it: whatever else fails, every extraction
  -- that the request enqueues has its job committed in the table.
  pub ingest_conversations-TasksHaveJobs :
      (cs : List Incoming) (saved : List Saved) (jobs : List Job)
      → TasksHaveJobs
          (ingest_conversations s cs saved jobs).1.enqueue_tasks
          (ingest_conversations s cs saved jobs).1.jobs
  unfolding ingest_conversations TasksHaveJobs
  ingest_conversations-TasksHaveJobs cs saved jobs = ingest_all-AllHaveJobs cs (start saved jobs) tt
