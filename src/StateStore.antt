-- ===== src/StateStore.antt =====
-- state_store.py: the operations of `StateDB`, one child for each group of tables.
pub mod Spool
pub mod Lease
pub mod AuditLog
pub mod Tickets
pub mod Incidents
mod Examples
