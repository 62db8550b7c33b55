-- ===== src/Ingest.antt =====
-- memu/ingest: what the ingestion of a code base makes of the names in its files.
pub mod Filters
pub mod Walk
pub mod Names
pub mod Imports
pub mod Resolve
mod Tests
