-- ===== src/Ingest.antt =====
-- The ingest of conversations, gubbi/api/v1/ingest.py.
pub mod Batch
pub mod Counters
pub mod Enqueued
mod Tests
