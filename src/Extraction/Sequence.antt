-- ===== src/Extraction/Sequence.antt =====
-- Any sequence of runs over one conversation, whatever the LLM answers and whatever fails.
use gubbi.Prelude.{ℕ, ◌≡◌, Bool, false, not, Option, List, [], ◌∷◌}
use gubbi.Pg.{Conn}
use gubbi.Crypto.Utf8.{Text}
use gubbi.Crypto.Cipher.{Aead, ContentCipher}
use gubbi.Journal.Store.{Tables, Audit, Result, ok, err, Exec}
use gubbi.Extraction.Worker.{State}
use gubbi.Extraction.Extract.{Summary, Run, extract_conversation}
use gubbi.Extraction.Marks.{Exists, Processed}

-- A run, and what other sessions commit during it.
pub record Turn : Type 0 where
  pub run : Run
  pub meanwhile : Tables → Tables
  pub others : Tables → Tables

-- The run has written its entries: it returned, and was not skipped.
abbrev pub wrote : Result Summary → Bool
wrote (ok summary) = not summary.skipped
wrote (err e) = false

module _ (aead : Aead) (cipher : ContentCipher) (lower : Text → Text)
    (record_audit : Conn → Audit → Exec (Unit {0})) where
  unfoldable pub run_all : List Turn → State → List (Result Summary)
  unfolding extract_conversation
  run_all [] s = []
  run_all (x ∷ xs) s =
      let (r, s') =
        extract_conversation aead cipher lower record_audit x.meanwhile x.others x.run s in
      r ∷ run_all xs s'

-- A run of the tenant over the conversation. Other sessions delete no conversation of the tenant, and
-- take no mark away.
pub record IsFair (tenant : Option ℕ) (i : ℕ) (x : Turn) : Type 0 where
  pub of_tenant : x.run.ctx.conn.tenant ≡ tenant
  pub over : x.run.conversation_id ≡ i
  pub meanwhile_exists :
      (j : ℕ) (t : Tables)
      → Exists tenant j t.conversations
      → Exists tenant j (x.meanwhile t).conversations
  pub others_exists :
      (j : ℕ) (t : Tables)
      → Exists tenant j t.conversations
      → Exists tenant j (x.others t).conversations
  pub meanwhile_processed :
      (j : ℕ) (t : Tables)
      → Processed tenant j t.conversations
      → Processed tenant j (x.meanwhile t).conversations
  pub others_processed :
      (j : ℕ) (t : Tables)
      → Processed tenant j t.conversations
      → Processed tenant j (x.others t).conversations
