-- ===== src/Lru.antt =====
-- core/lru_cache.py: the LRU cache with a time to live, the memoising wrapper and the two-level
-- cache. The children hold the operations and the proofs.
pub mod Cache
pub mod Invariant
pub mod Lookup
pub mod Recency
pub mod Cleanup
pub mod MultiLevel
mod Tests
