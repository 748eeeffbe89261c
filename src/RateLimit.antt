-- ===== src/RateLimit.antt =====
-- core/rate_limiter.py: the sliding-window rate limiter. The children hold the client buckets, the
-- limiter and the proofs.
pub mod Client
pub mod Limiter
pub mod Bounds
pub mod Cleanup
pub mod Route
mod Tests
