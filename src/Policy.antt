-- ===== src/Policy.antt =====
-- Capabilities, tools and approvals: capability_policy.py, tool_registry.py, consequence_policy.py
-- and digital/authorization.py.
pub mod Capability
pub mod Tool
pub mod Consequence
pub mod Registry
pub mod Grants
pub mod Steps
mod Tests
