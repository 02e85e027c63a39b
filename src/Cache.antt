-- ===== src/Cache.antt =====
-- The thumbnail cache: apps/search-api/internal/service/thumbnail.go and thumbnailkey.go, and the
-- workers of apps/search-api/internal/jobs/cache_workers.go, which share its rows and its bucket.
pub mod Key
pub mod Tables
pub mod Workers
pub mod Runs
pub mod Drain
pub mod Render
pub mod Thumbnail
pub mod Calls
pub mod Tests
