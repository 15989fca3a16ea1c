-- ===== src/Lifecycle.antt =====
-- The lifecycle of an action: action_lifecycle.py, lifecycle_ledger.py and lifecycle_recovery.py.
pub mod State
pub mod Spine
pub mod Ledger
pub mod Append
pub mod Recovery
pub mod History
pub mod Tracks
pub mod Sealed
pub mod Appended
pub mod Blocked
mod Tests
