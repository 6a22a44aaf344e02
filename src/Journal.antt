-- ===== src/Journal.antt =====
-- The journal: its tables and the repositories over them, gubbi/storage/repositories.
pub mod Store
pub mod Like
pub mod Topics
pub mod Sound
pub mod Rows
pub mod Entries
pub mod Conversations
pub mod Keeps
pub mod Kept
pub mod History
pub mod Sample
mod Tests
