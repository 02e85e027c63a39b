-- ===== src/Jobs.antt =====
-- The job definitions and the enqueuer: apps/search-api/internal/jobs/jobs.go; and the extraction
-- worker of workers.go.
pub mod Args
pub mod Enqueuer
pub mod Extract
