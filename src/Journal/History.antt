-- ===== src/Journal/History.antt =====
-- Any sequence of operations of the topic and entry repositories, each in a transaction of its own.
use gubbi.Prelude.{ℕ, ◌≤◌, Bool, true, false, Option, List, [], ◌∷◌, arith}
use gubbi.Pg.{Conn}
use gubbi.Crypto.Utf8.{Bytes, Text}
use gubbi.Crypto.Cipher.{Aead, ContentCipher}
use gubbi.Journal.Store.{
  Tables, Session, ready, Audit, Result, ok, err, Exec, pure, ◌>>◌, rolled_back, finish,
  transaction,
}
use gubbi.Journal.Topics.{create}
use gubbi.Journal.Topics.Mutations.{rename, delete_with_reassign, merge}
use gubbi.Journal.Entries.{DateText, Mode, append, update, delete}
use gubbi.Journal.Entries.Move.{move_entries_to_topic}
use gubbi.Journal.Sound.{IsSound}
use gubbi.Journal.Sound.Owners
use gubbi.Journal.Sound.Writes.{Good}
use gubbi.Journal.Sound.Triples.{triple_bind, triple_pure}
use gubbi.Journal.Sound.Operations.{
  Sound, AuditSound, create-Sound, append-Sound, delete-Sound, rename-Sound,
  delete_with_reassign-Sound, merge-Sound,
}
use gubbi.Journal.Sound.EntryOperations.{update-Sound, move_entries_to_topic-Sound}

-- A call of a repository, with the bytes that its encryption draws.
pub data Operation : Type 0 where
  creation : (path title description : Text) → Option ℕ → Operation
  renaming : (topic_id : ℕ) → (new_path : Text) → Option Text → (actor : ℕ) → Operation
  topic_deletion : (topic_id : ℕ) → Option ℕ → (actor : ℕ) → Operation
  merging : (source into actor : ℕ) → Operation
  appending :
      (drawn drawn' : Bytes)
      → (topic content : Text) → Option Text
      → List Text
      → Option DateText
      → Operation
  updating :
      (drawn drawn' : Bytes)
      → (entry_id : ℕ) → (content reasoning : Option Text) → Mode
      → Option DateText
      → Option (List Text)
      → Operation
  deletion : (entry_id : ℕ) → Operation
  moving : (entry_ids : List ℕ) → (dest actor : ℕ) → Operation

module _ (aead : Aead) (cipher : ContentCipher) (lower : Text → Text)
    (record_audit : Conn → Audit → Exec (Unit {0})) where
  abbrev pub perform : Conn → Operation → Exec (Unit {0})
  perform conn (creation path title description created_at) =
      create lower conn path title description created_at >> pure tt
  perform conn (renaming i path title actor) =
      rename record_audit lower conn i path title actor >> pure tt
  perform conn (topic_deletion i dest actor) =
      delete_with_reassign record_audit conn i dest actor >> pure tt
  perform conn (merging source into actor) = merge record_audit conn source into actor >> pure tt
  perform conn (appending drawn drawn' topic content reasoning tags date) =
      append aead cipher lower conn drawn drawn' topic content reasoning tags date >> pure tt
  perform conn (updating drawn drawn' i content reasoning mode date tags) =
      update aead cipher conn drawn drawn' i content reasoning mode date tags
  perform conn (deletion i) = delete conn i >> pure tt
  perform conn (moving ids dest actor) =
      move_entries_to_topic record_audit conn ids dest actor >> pure tt

  -- The sessions' operations, one after the other; an operation that raises is rolled back.
  unfoldable pub perform_all : List (Conn × Operation) → Tables → Tables
  unfolding create rename delete_with_reassign merge append update delete move_entries_to_topic
  perform_all [] t = t
  perform_all ((conn, op) ∷ ops) t =
      perform_all ops (transaction (perform conn op) (ready t)).1.tables

rolled_back-IsSound :
    (before after : Tables)
    → IsSound before
    → before.next_topic ≤ after.next_topic
    → IsSound (rolled_back before after)
rolled_back-IsSound before after sound above = record {
  idents = sound.idents;
  paths = sound.paths;
  slugs = sound.slugs;
  drawn = Owners.drawn-weaken before.next_topic after.next_topic before.topics above sound.drawn;
  entries_owned = sound.entries_owned;
  conversations_owned = sound.conversations_owned;
}

ended :
    {A : Type 0}
    → (aborted : Bool) (a : A) (t u : Tables) → IsSound t
    → Good t.next_topic u
    → IsSound (finish false (ready t) (ok a) (record { tables = u; aborted = aborted })).1.tables
ended true a t u sound g = rolled_back-IsSound t u sound g.floor
ended false a t u sound g = g.sound

finish-IsSound :
    {A : Type 0}
    → (r : Result A) (t : Tables) (s : Session) → IsSound t
    → Good t.next_topic s.tables
    → IsSound (finish false (ready t) r s).1.tables
finish-IsSound (ok a) t s sound g = ended s.aborted a t s.tables sound g
finish-IsSound (err e) t s sound g = rolled_back-IsSound t s.tables sound g.floor

transaction-IsSound :
    {A : Type 0}
    → (m : Exec A) (t : Tables) → Sound t.next_topic m
    → IsSound t
    → IsSound (transaction m (ready t)).1.tables
transaction-IsSound m t keeps sound =
    let (g, u) = keeps.runs (ready t) (record { sound = sound; floor = omega arith }) tt in
    finish-IsSound (m (ready t)).0 t (m (ready t)).1 sound g

discarded : {A : Type 0} → (n : ℕ) (m : Exec A) → Sound n m → Sound n (m >> pure tt)
discarded n m h = triple_bind m _ h (λ a. triple_pure tt (λ t g f. tt))

module _ (aead : Aead) (cipher : ContentCipher) (lower : Text → Text)
    (record_audit : Conn → Audit → Exec (Unit {0})) (audit_sound : AuditSound record_audit) where
  perform-Sound :
      (n : ℕ) (conn : Conn) (op : Operation)
      → Sound n (perform aead cipher lower record_audit conn op)
  perform-Sound n conn (creation path title description created_at) =
      discarded n _ (create-Sound n conn lower path title description created_at)
  perform-Sound n conn (renaming i path title actor) =
      discarded n _ (rename-Sound record_audit audit_sound n conn lower i path title actor)
  perform-Sound n conn (topic_deletion i dest actor) =
      discarded n _ (delete_with_reassign-Sound record_audit audit_sound n conn i dest actor)
  perform-Sound n conn (merging source into actor) =
      discarded n _ (merge-Sound record_audit audit_sound n conn source into actor)
  perform-Sound n conn (appending drawn drawn' topic content reasoning tags date) =
      discarded n _
        (append-Sound n conn aead cipher lower drawn drawn' topic content reasoning tags date)
  perform-Sound n conn (updating drawn drawn' i content reasoning mode date tags) =
      update-Sound n conn aead cipher drawn drawn' i content reasoning mode date tags
  perform-Sound n conn (deletion i) = discarded n _ (delete-Sound n conn i)
  perform-Sound n conn (moving ids dest actor) =
      discarded n _ (move_entries_to_topic-Sound record_audit audit_sound n conn ids dest actor)

  -- Where writing an audit row keeps the tables sound and takes no topic identifier back: whatever
  -- users perform, in whatever order, with each operation in its own transaction, and whatever fails,
  -- sound tables stay sound. Every entry and every conversation stands under a topic of its own user,
  -- identifiers and the paths of a user are unique, and so are the slugs of a topic.
  pub perform_all-IsSound :
      (ops : List (Conn × Operation)) (t : Tables)
      → IsSound t
      → IsSound (perform_all aead cipher lower record_audit ops t)
  unfolding perform_all
  perform_all-IsSound [] t sound = sound
  perform_all-IsSound ((conn, op) ∷ ops) t sound = perform_all-IsSound ops _ (
      transaction-IsSound (perform aead cipher lower record_audit conn op) t
        (perform-Sound t.next_topic conn op) sound)
