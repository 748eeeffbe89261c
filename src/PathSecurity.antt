-- ===== src/PathSecurity.antt =====
-- Which files the program may touch: app/core/path_security.py.
pub mod Posix
pub mod Inside
pub mod Validate
pub mod Actions
mod Tests
