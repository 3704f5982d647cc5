-- ===== src/Invalidation.antt =====
-- internal/invalidation and internal/api/invalidation: path patterns, the cache walk, the worker,
-- the record store and the AWS handler.
pub mod Matcher
pub mod Cache
pub mod Worker
pub mod Store
pub mod Handler
mod Tests
