-- ===== src/Lib.antt =====
-- netlog-ai: a log analyser for networks. Modelled is the durable core of the program: the state database,
-- the tracking of entities that go down and come up, the streaming triage worker, the syslog listener's queue and
-- limits, the throttle of the audit log, the vault of masked entities, the log deduplicator, the incident store,
-- access control, the stability scores and the source manager.
--
-- The parts, with the files that model them:
--   * StateStore.antt: src/ai_log_analyzer/state_store.py, the SQLite state database `StateDB`, as tables with one
--     function for each operation. A `write()` block is one step, as BEGIN IMMEDIATE makes it.
--     StateStore/Spool.antt: the syslog spool with its prune (`spool_append`, `_spool_prune`, the reads);
--     StateStore/Lease.antt: `lease_acquire`, `lease_release`, `lease_valid`; StateStore/AuditLog.antt: the
--     hash-chained log; StateStore/Tickets.antt: triage tickets and their fence; StateStore/Incidents.antt: the
--     journal.
--   * EntityState.antt: src/ai_log_analyzer/entity_state.py. EntityState/Key.antt is `entity_key`,
--     EntityState/Tracker.antt
--     `EntityStateTracker.add`, EntityState/Flap.antt `_is_flapping`, EntityState/Status.antt `_state_for` and
--     `group_state`.
--   * Triage.antt: src/ai_log_analyzer/triage_worker.py. Triage/Drain.antt is the batch loop of `_ingest` on the
--     spool, Triage/Window.antt what `_process` makes of its rows; Triage/Merge.antt `_merge`;
--     Triage/Decide.antt `_decide` on the tickets;
--     Triage/Rate.antt the hourly limit; Triage/Sinks.antt the retry state and `_send`; Triage/Leader.antt
--     `_still_leader` on the leases. Triage/Handle.antt is
--     `_handle` with `_park` and `_put`, which composes them for one incident, and Triage/Tick.antt
--     `_run_active` and `run_once`, which compose
--     the reading of all sources, the handling of all incidents and the commit.
--   * Syslog.antt: src/ai_log_analyzer/sources/syslog.py. Syslog/Queue.antt is the way of a line from `_ingest`
--     through
--     `_flush` and the rounds of `_writer_loop` to the spool, with `_abandon` and the end of `close`;
--     Syslog/Admission.antt is the admission of connections in `_handle_conn`, Syslog/Framing.antt the
--     framing of their bytes in `_read_frame`.
--   * Audit.antt: src/ai_log_analyzer/audit.py, of which Audit/Throttle.antt models `record_throttled`,
--     with whether `record` gets its row appended.
--   * Vault.antt: src/ai_log_analyzer/sanitize_vault.py, the tokens of `SanitizeVault` and their reversal.
--   * Dedup.antt: src/ai_log_analyzer/dedup.py, the loop of `NetworkLogDeduplicator.deduplicate`.
--   * Memory.antt: src/ai_log_analyzer/memory.py, `SqliteIncidentStore`, a copy of the journal that other workers
--     append to. Memory/Growth.antt is about the journal, Memory/Coherence.antt about the copy;
--     Memory/File.antt is `IncidentStore`, the journal on a file.
--   * Access.antt: src/ai_log_analyzer/rbac.py, the principals of a configuration and `authenticate`.
--   * Stability.antt: src/ai_log_analyzer/stability.py, `StabilityTracker`; Stability/Report.antt is its `report`.
--   * Sources.antt: src/ai_log_analyzer/sources/manager.py, `SourceManager`.
--   * Prelude.antt: tests, lists, keyed tables, ascending ids and sorting, which the parts share.
--
-- The worker reads the spool in batches from its cursor, decides on each incident with the ticket that the
-- database holds, and delivers it while its lease is valid; the syslog listener's writer appends
-- to the spool. The listener's threads are steps in any order, each block under a lock being one, so
-- that a flush is two.
--
-- While a tick reads the rows of a source, these stay as they are; the sources may change between each other,
-- and between ticks.
--
-- Times are numbers of clock ticks, so that a sum of times is exact; where the source subtracts two times
-- and compares, the comparison is written with a sum. `random()` is a parameter, in thousandths.
-- The batch loop runs on fuel; one more than the number of unread rows is enough, since each round but
-- the last reads a row. So does the loop over the frames of a connection; one more than its bytes is enough, since
-- each round but the last reads a byte. Every other loop is structural.
--
-- Parameters, since their code is not the program's: the digests (SHA-256 of a JSON text or a token, SHA-1 of a
-- template), Python's text functions, SQLite's
-- LIKE, lower-casing, the parsing of time stamps, the listener's allow list, and
-- the calls of ticket sinks. The parsers, the classifier and other rules in
-- regular expressions are the program's own and are parameters where an answer of theirs is used. The candidates that
-- the window gives are a parameter of a tick, as is what each incident meets in it. Not modelled: sockets,
-- HTTP, threads, connections to SQLite, regular expressions, prompts and texts for readers.
mod Prelude
pub mod StateStore
pub mod EntityState
pub mod Triage
pub mod Syslog
pub mod Audit
pub mod Vault
pub mod Dedup
pub mod Memory
pub mod Access
pub mod Stability
pub mod Sources
