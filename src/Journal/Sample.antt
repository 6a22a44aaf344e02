-- ===== src/Journal/Sample.antt =====
-- Small tables, a connection and an audit for the tests.
use gubbi.Prelude.{ℕ, String, true, none, some, [], ◌∷◌, codes}
use gubbi.Pg.{Conn}
use gubbi.Crypto.Utf8.{Bytes, Text}
use gubbi.Crypto.Cipher.{Aead, Keys, ContentCipher}
use gubbi.Journal.Store.{Topic, Sealed, Entry, Conversation, Tables, Audit, ok, Exec, statement}

-- A plaintext is its own ciphertext.
abbrev pub plain : Aead
plain = record { seal = λ k n p. p; unseal = λ k n c. some c }

abbrev pub key : Bytes
key =
    1 ∷ 2 ∷ 3 ∷ 4 ∷ 5 ∷ 6 ∷ 7 ∷ 8 ∷ 9 ∷ 10 ∷ 11 ∷ 12 ∷ 13 ∷ 14 ∷ 15 ∷ 16 ∷ 17 ∷ 18 ∷ 19 ∷ 20 ∷ 21
    ∷ 22 ∷ 23 ∷ 24 ∷ 25 ∷ 26 ∷ 27 ∷ 28 ∷ 29 ∷ 30 ∷ 31 ∷ 32 ∷ []

abbrev pub keys : Keys
keys = (1, key) ∷ []

abbrev pub cipher : ContentCipher
cipher = record { keys = keys; active_version = 1 }

abbrev pub lower : Text → Text
lower t = t

abbrev pub drawn : ℕ → ℕ → Bytes
drawn n k = n ∷ k ∷ 0 ∷ 0 ∷ 0 ∷ 0 ∷ 0 ∷ 0 ∷ 0 ∷ 0 ∷ 0 ∷ []

abbrev pub conn : Conn
conn = record { tenant = some 7; now = 90000; in_transaction = true; references = λ u c. true }

-- An audit row is added.
abbrev pub record_audit : Conn → Audit → Exec (Unit {0})
record_audit c a = statement c (λ t. ok (tt, record t { audits = a ∷ t.audits }))

abbrev pub topic : ℕ → String → Topic
topic i path = record {
  ident = i;
  user = 7;
  path = codes path;
  title = codes path;
  description = [];
  created_at = 10;
  updated_at = 10;
}

abbrev pub bytes : Bytes → Sealed
bytes b = record {
  ciphertext = some b;
  nonce = some (1 ∷ 0 ∷ 0 ∷ 0 ∷ 0 ∷ 0 ∷ 0 ∷ 0 ∷ 0 ∷ 0 ∷ 0 ∷ 0 ∷ []);
}

abbrev pub entry : ℕ → ℕ → Entry
entry i topic_id = record {
  ident = i;
  user = 7;
  topic_id = topic_id;
  date = 1;
  conversation_id = none;
  tags = [];
  created_at = 20;
  updated_at = 20;
  deleted_at = none;
  indexed_at = none;
  content = bytes (i ∷ []);
  reasoning = record { ciphertext = none; nonce = none };
  search_vector = [];
}

abbrev pub conversation : ℕ → ℕ → String → Conversation
conversation i topic_id slug = record {
  ident = i;
  user = 7;
  topic_id = topic_id;
  slug = codes slug;
  source = codes "claude";
  tags = [];
  participants = [];
  message_count = 0;
  json_path = none;
  created_at = 20;
  updated_at = 20;
  title = bytes [];
  summary = bytes [];
  search_vector = [];
  platform = none;
  processed_at = none;
}

abbrev pub tables : Tables
tables = record {
  topics = topic 1 "work" ∷ topic 2 "home" ∷ [];
  entries = entry 1 1 ∷ entry 2 2 ∷ entry 3 1 ∷ [];
  conversations = conversation 1 1 "plan" ∷ conversation 2 2 "trip" ∷ [];
  messages = [];
  embeddings = [];
  audits = [];
  archive = [];
  next_topic = 3;
  next_entry = 4;
  next_conversation = 3;
}
