-- ===== src/Syslog.antt =====
-- sources/syslog.py: the syslog listener.
pub mod Queue
pub mod Admission
pub mod Framing
