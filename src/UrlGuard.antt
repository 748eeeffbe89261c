-- ===== src/UrlGuard.antt =====
-- The test of an outgoing URL: app/core/url_validator.py.
pub mod Address
pub mod Validator
pub mod Private
pub mod Accepted
mod Tests
