-- ===== src/Memory/Examples.antt =====
-- The theorem about the incident store, for two workers of which one loses a read of the database.
use netlog_ai.Prelude.{ℕ, String, true, none, List, [], ◌∷◌}
use netlog_ai.StateStore.Incidents.{Incident, Journal}
use netlog_ai.Memory.{
  Store, no_fault, rows_fail, version_fails, Event, recorded, appended, looked_up,
}

abbrev incident : String → Incident
incident text = record {
  description = text;
  severity = "high";
  category = "bgp";
  devices = "r1" ∷ [];
  count = 1;
  sample_messages = [];
  generated_at = "2026-01-01T00:00:00+00:00";
}

abbrev journal : Journal
journal = record {
  rows = record { id = 1; incident = incident "BGP down"; resolution = none } ∷ [];
  next_id = 2;
}

abbrev empty : Store
empty = record { recs = []; version = none }

abbrev size : String → ℕ
size text = 1

abbrev events : List Event
events =
    appended (incident "OSPF down" ∷ [])
    ∷ looked_up version_fails []
    ∷ looked_up no_fault ((incident "OSPF up" ∷ []) ∷ [])
    ∷ recorded true rows_fail ((incident "fan failed" ∷ []) ∷ []) (incident "link down" ∷ []) []
    ∷ recorded true no_fault [] (incident "CRC errors" ∷ []) []
    ∷ []
