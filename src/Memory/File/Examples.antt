-- ===== src/Memory/File/Examples.antt =====
-- The theorem about the journal on a file, for one that has a torn line in front and two workers.
use netlog_ai.Prelude.{◌≡◌, refl, String, none, some, List, [], ◌∷◌, ◌++◌, arith}
use netlog_ai.StateStore.Incidents.{Incident}
use netlog_ai.Memory.File.{File, read_file, newest, persist_all}
use netlog_ai.Memory.File.Kept.{joined, persist_all-keeps}

abbrev incident : String → Incident
incident text = record {
  description = text;
  severity = "high";
  category = "bgp";
  devices = "r1" ∷ [];
  count = 1;
  sample_messages = [];
  generated_at = "2026-01-01T00:00:00+00:00";
}

abbrev file : File
file = record { lines = none ∷ some (incident "BGP down") ∷ []; tail = none }

abbrev writes : List (List Incident × List Incident)
writes =
    (incident "BGP down" ∷ [], incident "OSPF down" ∷ incident "fan failed" ∷ [])
    ∷ ([], incident "link down" ∷ [])
    ∷ []

persist_all-keeps_example :
    read_file (persist_all 3 writes file) ≡ newest 3 (read_file file ++ joined writes)
unfolding read_file
persist_all-keeps_example =
    persist_all-keeps 3 writes file (record { ends = refl; described = (refl, tt) }) (omega arith)
      ((refl, (refl, tt)), ((refl, tt), tt))
