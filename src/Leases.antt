-- ===== src/Leases.antt =====
-- concurrency.py: the leases of the resources that executions use.
pub mod Store
pub mod Held
mod Tests
