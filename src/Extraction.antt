-- ===== src/Extraction.antt =====
-- The extraction worker, gubbi/extraction/jobs/extract_conversation.py.
pub mod Worker
pub mod Persist
pub mod Extract
pub mod Keeps
pub mod Kept
pub mod RunKept
pub mod Triples
pub mod Marks
pub mod Once
pub mod Sequence
pub mod Spares
pub mod Bucket
pub mod Races
mod Tests
