-- ===== src/Source.antt =====
-- internal/source: fetching a source.
pub mod Retry
pub mod Snapshots
