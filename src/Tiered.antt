-- ===== src/Tiered.antt =====
-- The cache of several levels: app/services/tiered_cache.py over app/services/cache_service.py (memory)
-- and app/services/disk_cache.py (disk).
pub mod Level
pub mod Cache
pub mod Refine
pub mod Warmup
pub mod Runs
pub mod Disk
pub mod DiskBulk
pub mod DiskLevel
pub mod DiskWarm
pub mod Memory
pub mod Revival
mod Tests
