-- ===== src/Gates.antt =====
-- The decision gates before and around an execution: admission.py with readiness.py and
-- production_audit.py, verification_gate.py, release_gate.py, resilience.py and budget.py.
pub mod Reports
pub mod Admission
pub mod Stages
pub mod Release
pub mod Recovery
pub mod Budget
mod Tests
