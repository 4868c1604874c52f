-- ===== src/Triage/Merge.antt =====
-- `_merge`: one incident for each fingerprint. The dict keeps the order of insertion, so it is the list
-- of its values, which carry their fingerprints.
pub mod Totals
use netlog_ai.Prelude.{ℕ, ◌+◌, String, Bool, List, [], ◌∷◌, ◌++◌, ltb, max, str_eq, if◌then◌else◌}
use netlog_ai.Prelude.Sort.{sort}
use netlog_ai.Triage.Types.{Candidate, sev_rank}
use netlog_ai.Triage.Handle.{distinct_refs, str_leb}

-- sorted(set(a) | set(b))
pub union : List String → List String → List String
union a b = sort str_leb (distinct_refs [] (a ++ b))

-- a candidate `c` joins the incident `c0`
pub absorb : Candidate → Candidate → Candidate
absorb c c0 = record c0 {
  count = c0.count + c.count;
  suppressed = c0.suppressed + c.suppressed;
  latest = max c0.latest c.latest;
  severity = if ltb (sev_rank c.severity) (sev_rank c0.severity) then c.severity else c0.severity;
  state = if str_eq c.state "active" then "active" else c0.state;
  devices = union c0.devices c.devices;
  related = c0.related ++ c.summary ∷ [];
}

-- a round of the loop
pub merge_one : Candidate → List Candidate → List Candidate
merge_one c [] = record c { related = [] } ∷ []
merge_one c (c0 ∷ merged) =
    let rest = merge_one c merged in
    if str_eq c0.fingerprint c.fingerprint then absorb c c0 ∷ merged else c0 ∷ rest

pub merge_into : List Candidate → List Candidate → List Candidate
merge_into [] merged = merged
merge_into (c ∷ cs) merged = merge_into cs (merge_one c merged)

pub merge : List Candidate → List Candidate
merge cands = merge_into cands []
