-- ===== src/Audit.antt =====
-- audit.py: the front end of the audit log.
pub mod Throttle
