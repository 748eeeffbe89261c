-- ===== src/Manager.antt =====
-- The cache manager: app/core/cache_manager.py, over the caches of `Lru`.
pub mod Decimal
pub mod Space
pub mod Reach
pub mod Namespaces
pub mod Cascade
pub mod Bulk
mod Tests
