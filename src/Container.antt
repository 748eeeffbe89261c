-- ===== src/Container.antt =====
-- The container that creates and keeps the program's services: app/core/service_container.py.
pub mod Registry
pub mod Resolve
pub mod Startup
pub mod Order
pub mod Same
pub mod Lifecycle
mod Tests
