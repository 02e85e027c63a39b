-- ===== src/Ingest/Tables.antt =====
-- The SQL statements of apps/search-api/internal/store/queries as functions on the tables.
pub mod Observations
pub mod Documents
pub mod Versions
