-- ===== src/Journal/Tests.antt =====
-- Runs of the repositories on small tables.
use gubbi.Prelude.{
  ℕ, ◌≡◌, refl, none, some, List, [], ◌∷◌, codes, nat_eq, list_eq, string_eq, arith, inl, inr,
  Bool-cases,
}
use gubbi.Pg.{Conn}
use gubbi.Journal.Store.{ready, ok}
use gubbi.Journal.Sample.{plain, keys, cipher, lower, drawn, conn, record_audit, topic, tables}
use gubbi.Journal.Like.{like, prefix_pattern, is_prefix, like-prefix_pattern}
use gubbi.Crypto.Cipher.{content_cipher}
use gubbi.Validation.Topic.{validate_topic, is_slug_char}
use gubbi.Journal.Topics.{TopicMeta, unique_paths, get}
use gubbi.Journal.Entries.{append}
use gubbi.Journal.Entries.Read.{EntryView, read, get_text}
use gubbi.Journal.Entries.Roundtrip.{append-get_text}
use gubbi.Journal.Entries.Pages.{read-pages}
use gubbi.Journal.Sound.Operations.{AuditSound}
use gubbi.Journal.History.{
  Operation, appending, merging, deletion, perform_all, perform_all-IsSound,
}
use gubbi.Journal.Topics.Mutations.{unique_slugs, merge}
use gubbi.Journal.Topics.Merge.{merge_promise, merge-merge_promise}
use gubbi.Journal.Sound.{IsSound, owner_of, unique_idents}

tables-IsSound : IsSound tables
unfolding unique_idents unique_paths unique_slugs owner_of nat_eq list_eq string_eq
tables-IsSound = record {
  idents = refl;
  paths = refl;
  slugs = refl;
  drawn = (omega arith, (omega arith, tt));
  entries_owned = (refl, (refl, (refl, tt)));
  conversations_owned = (refl, (refl, tt));
}

like-prefix_pattern_example :
    like (prefix_pattern (codes "a%_!")) (codes "a%_!/b")
    ≡ is_prefix (codes "a%_!") (codes "a%_!/b")
like-prefix_pattern_example = like-prefix_pattern (codes "a%_!") (codes "a%_!/b")

merge_test :
    (merge record_audit conn 1 2 9 (ready tables)).0
    ≡ ok (record { entries = 2; conversations = 1 })
unfolding merge unique_slugs nat_eq list_eq string_eq
merge_test = refl

merge-merge_promise_example :
    merge record_audit conn 1 2 9 (ready tables)
    ≡ merge_promise record_audit conn 1 2 9 (ready tables)
merge-merge_promise_example = merge-merge_promise record_audit conn 1 2 9 tables tables-IsSound

append-get_text_example :
    let (r, s) =
      append plain cipher lower conn
        (drawn 4 0)
        (drawn 4 1)
        (codes "work")
        (codes "a")
        (some (codes "b"))
        []
        none
        (ready tables) in
    (r ≡ ok 4)
    × ((get_text plain cipher conn 4 s).0 ≡ ok (some (some (codes "a"), some (codes "b"))))
unfolding validate_topic is_slug_char content_cipher nat_eq list_eq string_eq
append-get_text_example =
    append-get_text plain (λ k n p. refl) keys cipher refl lower conn (drawn 4 0) (drawn 4 1)
      (codes "work") (codes "work") (codes "a") (some (codes "b")) [] none 1 7 (topic 1 "work")
      tables refl refl refl refl refl refl (refl, tt) (refl, tt)

abbrev meta : TopicMeta
meta = record {
  id = 1;
  topic = codes "work";
  title = codes "work";
  description = [];
  created = 0;
  updated = 0;
  entry_count = 2;
}

abbrev view : ℕ → EntryView
view i = record {
  id = i;
  date = 1;
  content = i ∷ [];
  reasoning = none;
  conversation_id = none;
  tags = [];
}

read-pages_example :
    (read plain cipher lower conn (codes "work") (some 1) none none 0 (ready tables)
      ≡ (ok (meta, (view 3 ∷ [], 2)), ready tables))
    × (read plain cipher lower conn (codes "work") (some 1) none none 1 (ready tables)
        ≡ (ok (meta, (view 1 ∷ [], 2)), ready tables))
unfolding read get validate_topic is_slug_char nat_eq list_eq string_eq
read-pages_example =
    read-pages plain cipher lower conn (codes "work") none none meta none none tables refl refl refl
      refl 1 1 0 2 (view 3 ∷ view 1 ∷ []) (omega arith) (omega arith) refl

audits_sound : AuditSound record_audit
audits_sound n c a s g = elim (Bool-cases s.aborted) [
  | inl aborted ↦ rw aborted g
  | inr fine ↦ rw fine (record {
    sound = record {
      idents = g.sound.idents;
      paths = g.sound.paths;
      slugs = g.sound.slugs;
      drawn = g.sound.drawn;
      entries_owned = g.sound.entries_owned;
      conversations_owned = g.sound.conversations_owned;
    };
    floor = g.floor;
  })
]

abbrev operations : List (Conn × Operation)
operations =
    (conn, appending (drawn 4 0) (drawn 4 1) (codes "work") (codes "a") none [] none)
    ∷ (conn, merging 1 2 7)
    ∷ (conn, deletion 9)
    ∷ []

perform_all-IsSound_example :
    IsSound (perform_all plain cipher lower record_audit operations tables)
perform_all-IsSound_example =
    perform_all-IsSound plain cipher lower record_audit audits_sound operations tables
      tables-IsSound
