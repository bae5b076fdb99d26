-- ===== src/Queue.antt =====
-- src/infrastructure/bullmq: the queue of import jobs, over Redis and BullMQ.
pub mod Redis
pub mod Bull
pub mod Idempotency
pub mod Cancellation
pub mod JobState
pub mod Manager
