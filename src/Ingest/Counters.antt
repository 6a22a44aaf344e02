-- ===== src/Ingest/Counters.antt =====
-- The counters, the charges and the jobs that a request of ingest_conversations leaves.
use gubbi.Prelude.{
  ℕ, suc, ◌+◌, ◌≡◌, refl, subst, ◌&&◌, not, Option, none, some, List, [], ◌∷◌, nat_eq,
  if◌then◌else◌, length, length-append, Bool-cases, inl, inr, arith,
}
use gubbi.Jobs.Table.{Job}
use gubbi.Ingest.Batch.{
  Saved, Incoming, Setup, Batch, exists_row, transaction_2, after_transaction_2, charge,
  charge_and_create, ingest_one, ingest_all, start, response, ingest_conversations,
}

-- What the counters owe each other after `n` conversations.
record IsBalanced (s : Setup) (n : ℕ) (b : Batch) : Type 0 where
  handled : b.conversations_saved + b.skipped_dedupe ≡ n
  saved : b.conversations_saved ≡ length b.enqueue_tasks + b.skipped_budget + b.skipped_error
  charged :
      b.charges
      ≡ (if s.has_budget then length b.enqueue_tasks + b.refunds + b.failed_refunds else 0)

-- The same while the conversation in hand is saved and not yet accounted for.
record IsSaving (s : Setup) (n : ℕ) (b : Batch) : Type 0 where
  handled : b.conversations_saved + b.skipped_dedupe ≡ suc n
  saved : b.conversations_saved ≡ suc (length b.enqueue_tasks + b.skipped_budget + b.skipped_error)
  charged :
      b.charges
      ≡ (if s.has_budget then length b.enqueue_tasks + b.refunds + b.failed_refunds else 0)

module _ (s : Setup) (c : Incoming) (n : ℕ) (b : Batch) where
  after_transaction_2-IsBalanced :
      (r : Option ℕ × List Job)
      → IsSaving s n b
      → IsBalanced s (suc n) (after_transaction_2 s c (charge s b) r)
  after_transaction_2-IsBalanced (none, jobs) inv = elim (Bool-cases s.has_budget) [
    | inl on ↦ elim (Bool-cases c.refund_raises) [
      | inl lost ↦
          rw (on, lost)
            (record {
              handled = inv.handled;
              saved = omega (arith, inv.saved);
              charged = ground (arith, inv.charged, on);
            })
      | inr back ↦
          rw (on, back)
            (record {
              handled = inv.handled;
              saved = omega (arith, inv.saved);
              charged = ground (arith, inv.charged, on);
            })
    ]
    | inr off ↦ rw off (record {
      handled = inv.handled;
      saved = omega (arith, inv.saved);
      charged = ground (arith, inv.charged, off);
    })
  ]
  after_transaction_2-IsBalanced (some job, jobs) inv =
      let longer = length-append b.enqueue_tasks ((job, c.conversation_id) ∷ []) in
      elim (Bool-cases s.has_budget) [
        | inl on ↦ rw on (record {
          handled = inv.handled;
          saved = omega (arith, inv.saved, longer);
          charged = ground (arith, inv.charged, on, longer);
        })
        | inr off ↦ rw off (record {
          handled = inv.handled;
          saved = omega (arith, inv.saved, longer);
          charged = ground (arith, inv.charged, off);
        })
      ]

  charge_and_create-IsBalanced : IsSaving s n b → IsBalanced s (suc n) (charge_and_create s c b)
  unfolding charge_and_create
  charge_and_create-IsBalanced inv = elim (Bool-cases (s.has_budget && not c.granted)) [
    | inl denied ↦
        rw denied (record {
          handled = inv.handled;
          saved = omega (arith, inv.saved);
          charged = inv.charged;
        })
    | inr granted ↦ rw granted (after_transaction_2-IsBalanced (transaction_2 s c b.jobs) inv)
  ]

ingest_one-IsBalanced :
    (s : Setup) (c : Incoming) (n : ℕ) (b : Batch)
    → IsBalanced s n b
    → IsBalanced s (suc n) (ingest_one s c b)
unfolding ingest_one
ingest_one-IsBalanced s c n b inv = elim (Bool-cases (exists_row c.key b.saved_rows)) [
  | inl old ↦
      rw old
        (record { handled = omega (arith, inv.handled); saved = inv.saved; charged = inv.charged })
  | inr new ↦ elim (Bool-cases c.raced) [
    | inl lost ↦
        rw (new, lost)
          (record {
            handled = omega (arith, inv.handled);
            saved = inv.saved;
            charged = inv.charged;
          })
    | inr first ↦
        rw (new, first)
          (charge_and_create-IsBalanced s c n
            (record b {
              saved_rows = c.key ∷ b.saved_rows;
              conversations_saved = suc b.conversations_saved;
            })
            (record {
              handled = omega (arith, inv.handled);
              saved = omega (arith, inv.saved);
              charged = inv.charged;
            }))
  ]
]

ingest_all-IsBalanced :
    (s : Setup) (cs : List Incoming) (n : ℕ) (b : Batch)
    → IsBalanced s n b
    → IsBalanced s (length cs + n) (ingest_all s cs b)
unfolding ingest_all
ingest_all-IsBalanced s [] n b inv = subst (λ m. IsBalanced s m b) (omega arith) inv
ingest_all-IsBalanced s (c ∷ cs) n b inv =
    subst (λ m. IsBalanced s m (ingest_all s cs (ingest_one s c b))) (omega arith)
      (ingest_all-IsBalanced s cs (suc n) (ingest_one s c b) (ingest_one-IsBalanced s c n b inv))

start-IsBalanced :
    (s : Setup) (saved : List Saved) (jobs : List Job) → IsBalanced s 0 (start saved jobs)
start-IsBalanced s saved jobs = record { handled = refl; saved = refl; charged = ground arith }

-- The response accounts for every conversation: each is saved or skipped as a duplicate; each that is
-- saved has its extraction enqueued, denied by the budget, or failed; and with a budget helper every
-- pre-charge belongs to an enqueued extraction, was refunded, or its refund failed, while without
-- one nothing is charged.
pub ingest_conversations_lem :
    (s : Setup) (cs : List Incoming) (saved : List Saved) (jobs : List Job)
    → let (r, b) = ingest_conversations s cs saved jobs in
      (r.conversations_saved + r.conversations_skipped_dedupe ≡ length cs)
      × (r.conversations_saved
          ≡ r.extractions_enqueued + r.extractions_skipped_budget + r.extractions_skipped_error)
      × (b.charges
          ≡ (if s.has_budget then r.extractions_enqueued + b.refunds + b.failed_refunds else 0))
unfolding ingest_conversations response
ingest_conversations_lem s cs saved jobs =
    let inv = ingest_all-IsBalanced s cs 0 (start saved jobs) (start-IsBalanced s saved jobs) in
    (omega (arith, inv.handled), inv.saved, inv.charged)
