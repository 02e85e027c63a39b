-- ===== src/Ingest.antt =====
-- The ingestion pipeline: apps/search-api/internal/ingest.
pub mod Types
pub mod Tx
pub mod Rows
pub mod Tables
pub mod Queries
pub mod Mountpoints
pub mod Reconciler
pub mod Scan
pub mod Processor
pub mod Consistent
pub mod Keeps
pub mod Watermark
mod Tests
