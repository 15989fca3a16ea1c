-- ===== src/Session.antt =====
-- workflow/session.py: the session of a workflow run, with the action budget of workflow/models.py and
-- the identifiers of workflow/policy.py.
pub mod Model
pub mod Steps
pub mod Snapshot
pub mod Progress
pub mod Bounds
pub mod Closed
mod Tests
