-- ===== src/Notify.antt =====
-- Which channels a notification goes to: app/services/notification_service.py.
pub mod Service
pub mod Sent
pub mod Telegram
mod Tests
