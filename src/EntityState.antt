-- ===== src/EntityState.antt =====
-- entity_state.py: down and up transitions of network entities, paired and labelled.
pub mod Key
pub mod Tracker
pub mod Flap
pub mod Status
mod Examples
