-- ===== src/Dag.antt =====
-- task_dag.py: a bounded graph of tasks, its order, and its execution.
pub mod Graph
pub mod Counts
pub mod Ordered
pub mod Rounds
pub mod Order
pub mod Run
pub mod Passes
pub mod Blocked
pub mod Execution
mod Tests
