-- ===== src/CachePolicy.antt =====
-- internal/api/cachepolicy: cache policies, with their store and handlers.
pub mod Store
pub mod Managed
pub mod Seed
pub mod Handler
pub mod Requests
mod Tests
