-- ===== src/Worker.antt =====
-- background_worker.py: the worker that takes tasks from the queue, under leases.
pub mod Loop
pub mod Rounds
mod Tests
