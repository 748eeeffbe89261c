-- ===== src/Scoring.antt =====
-- The score of a resource's quality: app/services/scoring/quality.py.
pub mod Quality
pub mod Monotone
mod Tests
