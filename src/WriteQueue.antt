-- ===== src/WriteQueue.antt =====
-- The queue of database writes: app/core/db_write_queue.py.
pub mod Queue
pub mod Order
pub mod Merge
pub mod Execute
pub mod Waiting
pub mod Account
pub mod Lost
mod Tests
