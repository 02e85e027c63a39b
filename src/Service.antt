-- ===== src/Service.antt =====
-- The handlers of the search API: apps/search-api/internal/service.
pub mod Snippets
pub mod ImageSpec
pub mod Tokens
pub mod Search
pub mod Documents
pub mod Rendering
mod Tests
