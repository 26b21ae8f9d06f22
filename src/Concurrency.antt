-- ===== src/Concurrency.antt =====
-- src/common/concurrency: queues and locks without a kernel.
pub mod Mpsc
pub mod Spsc
pub mod ByteQueue
pub mod Spinlock
