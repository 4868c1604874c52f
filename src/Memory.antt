-- ===== src/Memory.antt =====
-- memory.py: the incident store on the shared database, `SqliteIncidentStore`, and the recall of past
-- incidents that it shares with the store on a file. The database is the journal of state_store.py.
pub mod Window
pub mod Growth
pub mod Coherence
pub mod Recall
pub mod File
mod Examples
use netlog_ai.Prelude.{
  ℕ, suc, ◌+◌, ◌-◌, ◌&&◌, ◌||◌, not, String, Bool, true, false, Option, none, some, List, [], ◌∷◌,
  ◌++◌, leb, ltb, ◌==◌, str_eq, if◌then◌else◌, length, keep, take, drop,
}
use netlog_ai.StateStore.Incidents.{
  Incident, IncidentRow, Journal, Version, newest_id, incidents_version, incidents_all,
  incidents_since, incidents_append, incidents_resolve,
}

-- `_recs` and `_version`
pub record Store : Type 0 where
  pub recs : List IncidentRow
  pub version : Option Version

abbrev pub version_eq : Version → Version → Bool
version_eq a b = a.rows == b.rows && (a.newest == b.newest && a.resolved == b.resolved)

-- incidents_version() == self._version
pub is_current : Option Version → Version → Bool
is_current none v = false
is_current (some w) v = version_eq v w

-- where a read of the database fails
pub data Fault : Type 0 where
  no_fault version_fails rows_fail : Fault

-- `_load`: the version is read first, from `j`, and the rows then, from `j'`, since others may append in
-- between; `size` is SQL's LENGTH, `cap` is _MAX_RECORDS
pub load : (String → ℕ) → ℕ → Fault → Journal → Journal → Store → Store
load size cap no_fault j j' s = record {
  recs = incidents_all cap j';
  version = some (incidents_version size j);
}
load size cap version_fails j j' s = s
load size cap rows_fail j j' s = s

-- `_refresh`, which every read of `_records` starts with
pub refresh : (String → ℕ) → ℕ → Fault → Journal → Journal → Store → Store
refresh size cap version_fails j j' s = s
refresh size cap fault j j' s =
    if is_current s.version (incidents_version size j) then s else load size cap fault j j' s

-- the reload of only the new rows: they are read first, from `j`, and the version then, from `j'`
pub extend : (String → ℕ) → ℕ → Fault → Journal → Journal → Store → Store
extend size cap no_fault j j' s = record {
  recs = let all = s.recs ++ incidents_since (newest_id s.recs) j in drop (length all - cap) all;
  version = some (incidents_version size j');
}
extend size cap version_fails j j' s = record s {
  recs = let all = s.recs ++ incidents_since (newest_id s.recs) j in drop (length all - cap) all;
}
extend size cap rows_fail j j' s = s

-- the appends of other workers
pub append_all : ℕ → List (List Incident) → Journal → Journal
append_all cap [] j = j
append_all cap (batch ∷ batches) j = append_all cap batches (incidents_append batch cap j).1

-- the reload after an append, for a store that was `fresh` before it; `j` and `j'` are what its first and
-- its second read find
pub reload : (String → ℕ) → ℕ → Bool → Fault → Journal → Journal → Store → Store
reload size cap fresh fault j j' s =
    if fresh && (not (newest_id s.recs == 0) || length s.recs == 0)
    then extend size cap fault j j' s
    else load size cap fault j j' s

-- `_persist`. `others` is appended by other workers between the test of the version and the append, and
-- `later` between the two reads after it; `marker` is whether that test can read the version.
pub persist :
    (String → ℕ)
    → ℕ
    → Bool
    → Fault
    → List (List Incident)
    → List Incident
    → List (List Incident)
    → Journal
    → Store
    → Store × Journal
persist size cap marker fault others new later j s =
    let fresh = marker && is_current s.version (incidents_version size j) in
    let j' = (incidents_append new cap (append_all cap others j)).1 in
    let j'' = append_all cap later j' in (reload size cap fresh fault j' j'' s, j'')

-- What happens to a store and its database.
pub data Event : Type 0 where
  -- this worker records incidents, and others may come between: before its append, and between the two
  -- reads of its reload
  recorded : Bool → Fault → List (List Incident) → List Incident → List (List Incident) → Event
  -- another worker does
  appended : List Incident → Event
  -- this worker reads, and others may come between its two reads
  looked_up : Fault → List (List Incident) → Event

pub step : (String → ℕ) → ℕ → Event → Store × Journal → Store × Journal
step size cap (recorded marker fault others new later) (s, j) =
    persist size cap marker fault others new later j s
step size cap (appended new) (s, j) = (s, (incidents_append new cap j).1)
step size cap (looked_up fault later) (s, j) =
    let j' = append_all cap later j in (refresh size cap fault j j' s, j')

pub run : (String → ℕ) → ℕ → List Event → Store × Journal → Store × Journal
run size cap [] s = s
run size cap (e ∷ es) s = run size cap es (step size cap e s)
