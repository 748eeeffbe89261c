-- ===== src/LinkCache.antt =====
-- The cache of direct links in its own implementation: `LinkCacheLegacy` of app/services/link_cache.py.
pub mod Links
pub mod Bound
pub mod Runs
mod Tests
