-- ===== src/Jobs.antt =====
-- The extraction jobs: their table, the repository over it and the orphan sweep.
pub mod Table
pub mod Repository
pub mod Create
pub mod Sweep
pub mod History
pub mod Steps
pub mod Unique
pub mod Revive
pub mod Counts
pub mod Refunds
mod Tests
