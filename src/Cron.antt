-- ===== src/Cron.antt =====
-- The queue of background tasks and its one worker: app/services/cron_service.py.
pub mod Service
pub mod Coherent
pub mod Once
pub mod Stuck
pub mod Drain
mod Tests
