-- ===== src/Journal/Entries/Move.antt =====
-- move_entries_to_topic of gubbi/storage/repositories/entries.py.
use gubbi.Prelude.{
  ℕ, Bool, ◌&&◌, ◌||◌, not, List, [], ◌∷◌, ◌==◌, nat_eq, list_eq, ltb, if◌then◌else◌, filter, map,
  length, contains,
}
use gubbi.Pg.{Conn}
use gubbi.Journal.Store.{
  Entry, Tables, Audit, entry_moved, text, number, Result, ok, err, foreign_key_violation,
  topic_not_found, entries_move_not_found, value_error, assertion_error, Exec, pure, raise,
  statement, fetch, execute, of_option, require, ◌>>=◌, ◌>>◌, owned, find_row, rewrite,
}
use gubbi.Journal.Topics.{topic_by_id, topic_exists, is_live}
use gubbi.Journal.Topics.Mutations.{touch_topic, topic_audit}

abbrev pub max_move_ids : ℕ
max_move_ids = 100

-- `list(dict.fromkeys(entry_ids))`: the first occurrences, in order.
unfoldable pub dedupe : List ℕ → List ℕ
dedupe [] = []
dedupe (i ∷ is) = i ∷ filter (λ j. not (j == i)) (dedupe is)

abbrev pub chosen : Conn → List ℕ → Entry → Bool
chosen conn ids e = owned conn.tenant e.user && (contains ids e.ident && is_live e)

abbrev pub place_in : Conn → ℕ → Entry → Entry
place_in conn dest e = record e { topic_id = dest; updated_at = conn.now }

-- `UPDATE ... RETURNING id`.
unfoldable pub move_chosen : Conn → ℕ → List ℕ → Tables → Result (List ℕ × Tables)
move_chosen conn dest ids t =
    let moved = map (λ e. e.ident) (filter (chosen conn ids) t.entries) in
    if length moved == 0 || topic_exists dest t.topics
    then ok (moved, record t { entries = rewrite (chosen conn ids) (place_in conn dest) t.entries })
    else err foreign_key_violation

abbrev pub none_missing : List ℕ → Exec (Unit {0})
none_missing [] = pure tt
none_missing (i ∷ is) = raise (entries_move_not_found (i ∷ is))

module _ (record_audit : Conn → Audit → Exec (Unit {0})) where
  unfoldable pub move_entries_to_topic : Conn → List ℕ → ℕ → (actor : ℕ) → Exec ℕ
  unfolding dedupe move_chosen
  move_entries_to_topic conn entry_ids dest actor = do
    require conn.in_transaction assertion_error
    let ids = dedupe entry_ids
    require (not (length ids == 0)) value_error
    require (not (ltb max_move_ids (length ids))) value_error
    dest_row ← fetch conn (λ t. find_row (topic_by_id conn dest) t.topics)
    dest_topic ← of_option topic_not_found dest_row
    moved ← statement conn (move_chosen conn dest ids)
    none_missing (filter (λ i. not (contains moved i)) ids)
    execute conn (touch_topic conn dest)
    record_audit conn (
        topic_audit actor entry_moved dest
          (("dest_path", text dest_topic.path) ∷ ("entries_moved", number (length ids)) ∷ []))
    pure (length ids)
