-- ===== src/Lib.antt =====
-- gubbi: a verification library for the journal server, the Python package gubbi/.
--
-- The server keeps a user's journal in PostgreSQL and offers it to AI clients over MCP and to a web
-- application over REST. A request first passes the HTTP layers (origin check, path normalizer, bearer
-- authentication with its strategies and scopes); a self-hosted server is its own OAuth provider, over a
-- SQLite database. Tools and REST handlers then read and write through repositories, on connections
-- that row-level security binds to the user. Ingested conversations are turned into entries by
-- extraction jobs, whose table is swept for jobs that were lost.
--
-- Prelude (with Prelude/Tests, Equality, Lists and Text) holds what the modules share: Boolean tests,
-- the equality class, lists over native numbers, Python's compare_digest, join, split and str. Pg is the
-- PostgreSQL connection: statements that succeed or raise, the tenant of the row policies, and the rule
-- that a failed statement aborts an open transaction.
--
-- Jobs models the extraction_jobs table (gubbi/alembic/baseline_schema.sql: its primary key, partial
-- unique index, foreign keys and row policy) and its repository,
-- gubbi/storage/repositories/extraction_jobs.py: create_pending, get_period_start, mark_running,
-- update_progress, mark_completed, mark_failed and get_status_counts, each a statement or two over the
-- rows. Jobs/Sweep is one round of run_orphan_cleanup (gubbi/extraction/orphan_cleanup.py). Jobs/History
-- composes them into sequences of operations by any sessions; the other files there prove.
--
-- Oauth models the self-host OAuth server. Table, Db, Storage, RateLimit and Cleanup are the SQLite
-- database of gubbi/oauth/storage.py and gubbi/oauth/_rate_limit.py, method by method; an _atomic block
-- is run against a list of outcomes, one for each statement, so that a theorem quantifies over every
-- point of failure. Provider is gubbi/oauth/provider.py (loading, exchanging and revoking codes and
-- tokens), Login the form handler of gubbi/oauth/forms.py, Selfhost the token validator and the
-- registration limit of gubbi/oauth/selfhost.py.
--
-- Auth models gubbi/auth/scope.py (Scope), the four strategies of gubbi/auth/strategies.py
-- (Strategies), and in Middleware gubbi/middleware/auth.py, gubbi/api/v1/auth.py,
-- gubbi/middleware/origin.py and gubbi/middleware/path.py.
--
-- Journal models the tables of topics, entries, conversations, messages and embeddings
-- (gubbi/alembic/baseline_schema.sql) and the repositories over them. Store is the session: statements,
-- the row policy, transactions and savepoints, and the rule that a failed statement aborts a
-- transaction. Topics with Mutations and Like is gubbi/storage/repositories/topics.py and _escape_like
-- of base.py; Entries with Read, Move, Listing, Index, Timeline and Range is entries.py; Conversations with Save,
-- Read and Status is conversations.py. Sound says what the tables satisfy, its children carry that
-- through each statement and operation, and History composes the operations into sequences.
--
-- Extraction models gubbi/extraction/jobs/extract_conversation.py. Worker is what a run works on: the
-- journal and the jobs on one connection, the calls of the budget helper, the events, and the two local
-- variables that the except clause reads. Persist holds the steps on a connection (Phase 1, the skip,
-- the persisting, the failure), Extract the phases and extract_conversation. A failing connection, a
-- failing COMMIT, the budget helper and Redis are switches of a run, and what other sessions commit
-- while the LLM answers, or between a lookup and an insert, are functions on tables.
--
-- Search models gubbi/services/search.py: Merge and Pipeline are _run_dual_search and
-- run_journal_search, Hydrate is _hydrate_results, Payload is _build_payload; Fetch holds the batched
-- reads get_texts (gubbi/storage/repositories/entries.py) and get_titles_summaries
-- (gubbi/storage/repositories/conversations.py).
--
-- Crypto models gubbi/crypto/cipher.py: Cipher is ContentCipher with the helpers decrypt_or_raise and
-- decrypt_content_field; Utf8 is the codec that it calls, as the language defines it (its round trip is in Codec).
--
-- Validation models gubbi/validation.py: Title is validate_title, slugify and the sanitizers, Topic is validate_topic, with its pattern as
-- a reader of one character at a time, and harden_llm_topic_path; Grammar describes topics on their own.
--
-- Ingest models the loop of ingest_conversations in gubbi/api/v1/ingest.py over the conversations of one
-- request (Batch), with create_pending of Jobs in its second transaction. Races with other requests,
-- the budget helper's verdicts and failures of the audit row or of a refund are arguments.
--
-- Times are natural numbers: seconds in Jobs, microseconds of the clock in Oauth, which the code
-- cuts to seconds. UUIDs and serial numbers are natural numbers. Drawn tokens and generated
-- identifiers are arguments, as are AES-GCM, bcrypt, the gateway signature, token introspection,
-- UUID parsing, the audit writer of the shared package, the LLM service, the months of dates, the splitting of a gateway's scope header, str.lower, the order and negation of
-- floats, and what PostgreSQL answers to a full-text or vector query and what decrypting a fetched
-- row gives. The only fuel is that of Prelude.Text.decimal, which prints a number: it starts with
-- one more than the number, and every step divides by ten.
--
-- Not modelled: logging, metrics, spans and HTTP rendering, the sleeping loop around a sweep round, the
-- asynchronous scheduler inside one method (methods of the storage run under its lock), SQLite's
-- schema migrations, the prompts and the parsing of the LLM's answers, dates that depend on a time
-- zone, and the components that the manifest lists as such: key rotation, token introspection, the
-- embedding service, the tools and the wiring.
--
-- The files named Tests, RequestTests, Sample and Samples hold runs on concrete data.
pub mod Prelude
pub mod Pg
pub mod Jobs
pub mod Oauth
pub mod Auth
pub mod Search
pub mod Crypto
pub mod Validation
pub mod Ingest
pub mod Journal
pub mod Extraction
