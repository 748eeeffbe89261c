-- ===== src/Scheduler.antt =====
-- The scheduled tasks: app/services/platform/task_scheduler.py.
pub mod Calendar
pub mod Model
pub mod Due
pub mod Ticks
mod Tests
