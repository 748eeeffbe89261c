-- ===== src/Playback.antt =====
-- Which way a file is played: services/playback_route_health_service.py,
-- services/playback_decision_service.py and services/first_segment_cache_service.py.
pub mod Texts
pub mod Health
pub mod Sticky
pub mod Decision
pub mod Delivery
pub mod Segment
mod Tests
