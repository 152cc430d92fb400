-- ===== src/Worker.antt =====
-- apps/api/app/worker: the retry policy, the job contract, the queue service and the worker.
pub mod Process
pub mod Retry
pub mod Jobs
pub mod Hint
pub mod Delivery
pub mod Service
pub mod Serialization
mod Tests
