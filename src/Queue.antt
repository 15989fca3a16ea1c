-- ===== src/Queue.antt =====
-- task_queue.py: the durable queue of background tasks.
pub mod Item
pub mod Disk
pub mod Store
pub mod Command
pub mod Writes
pub mod Moves
pub mod Replaced
pub mod Evolution
pub mod Runs
pub mod Validity
pub mod Claims
mod Tests
