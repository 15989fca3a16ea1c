-- ===== src/Credentials.antt =====
-- auth_broker.py: credentials that are handed out once, for a short time.
pub mod Broker
pub mod Once
mod Tests
