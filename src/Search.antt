-- ===== src/Search.antt =====
-- The hybrid search, gubbi/services/search.py: full-text and semantic hits merged, decrypted and ranked.
pub mod Result
pub mod Fetch
pub mod Merge
pub mod Hydrate
pub mod Failure
pub mod Budget
pub mod Payload
pub mod Pipeline
mod Tests
