-- ===== src/Triage.antt =====
-- triage_worker.py: the streaming triage worker. Times are clock ticks; a difference that the source
-- compares with a duration is written as a sum, so that no subtraction stops at 0.
pub mod Types
pub mod Decide
pub mod Rate
pub mod Sinks
pub mod Drain
pub mod Merge
pub mod Handle
pub mod Window
pub mod Tick
pub mod Leader
mod Examples
