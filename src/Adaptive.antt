-- ===== src/Adaptive.antt =====
-- adaptive_execution.py: the execution of a plan step by step, with retries and replacements.
pub mod Observation
pub mod Run
pub mod Kept
pub mod Bounds
pub mod Accounts
pub mod Safety
mod Tests
