-- ===== src/Tasks.antt =====
-- The persistent task queue: models/task.py, services/platform/task_queue.py, task_worker.py and
-- the status writes of task_runner.py. The children hold the data, the operations and the proofs.
pub mod Model
pub mod Table
pub mod Queue
pub mod Worker
pub mod Runner
pub mod Outcome
pub mod Claim
pub mod Attempts
pub mod Recovery
pub mod Terminal
mod Tests
