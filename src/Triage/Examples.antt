-- ===== src/Triage/Examples.antt =====
-- The theorems about triage_worker.py at concrete inputs.
use netlog_ai.Prelude.{
  ℕ, max, min, ◌+◌, ◌≤◌, String, ◌≡◌, refl, Bool, true, false, Option, none, some, List, [], ◌∷◌,
  arith, length, keep, if◌then◌else◌, str_eq, Dict,
}
use netlog_ai.StateStore.Spool.{Row, Spool}
use netlog_ai.StateStore.Lease.{Leases}
use netlog_ai.Triage.Types.{Config, Candidate, sev_rank}
use netlog_ai.Triage.Rate.{sends, in_hour, rate_limit_holds}
use netlog_ai.Triage.Sinks.{SinkState, Answer, send, settle, send_from}
use netlog_ai.Triage.Sinks.Delivery.{names, send_partition}
use netlog_ai.Triage.Merge.{merge}
use netlog_ai.Triage.Merge.Totals.{count_of, measure, merge_lem}

abbrev config : Config
config = record {
  cooldown_s = 900;
  max_tickets_per_hour = 2;
  batch = 1;
  lease_ttl_s = 30;
  sink_backoff_s = 30;
  sink_backoff_max_s = 600;
  sink_breaker_threshold = 3;
  pending_ttl_s = 86400;
}

abbrev candidate : String → ℕ → Candidate
candidate severity latest = record {
  fingerprint = "f";
  severity = severity;
  state = "active";
  latest = latest;
  count = 1;
  suppressed = 0;
  devices = [];
  summary = "BGP down";
  title = "BGP down";
  related = [];
}

-- the send at 20 is cut off
abbrev tries : List (ℕ × Bool)
tries = (10, true) ∷ (20, false) ∷ (30, true) ∷ (40, true) ∷ (4000, true) ∷ []

rate_limit_holds_example : length (keep (in_hour 5) (sends 2 [] [] tries).1) ≤ 2
rate_limit_holds_example =
    rate_limit_holds 2 tries 5
      (omega arith, (omega arith, (omega arith, (omega arith, (omega arith, tt)))))

-- one sink that failed twice
abbrev states : Dict SinkState
states = ("thehive", record { fails = 2; next_try = 90 }) ∷ []

abbrev always : String → Bool
always name = true

-- TheHive answers, ServiceNow raises
abbrev upsert : String → Option Answer
upsert name = if str_eq name "thehive" then some ("created", "1") else none

send_partition_example :
    (names config 500 always upsert 100
        (send config 500 always upsert 100 ("servicenow" ∷ "thehive" ∷ []) states)
      ≡ "thehive" ∷ [])
    × ((send config 500 always upsert 100 ("servicenow" ∷ "thehive" ∷ []) states).failed
        ≡ "servicenow" ∷ [])
send_partition_example =
    send_partition config 500 always upsert 100 ("servicenow" ∷ "thehive" ∷ []) states
      (unfold send send_from settle in refl)

abbrev leases : Leases
leases = []

abbrev row : ℕ → Row
row id = record { id = id; source = "tcp"; received_at = 9; sender = "10.0.0.1"; line = "x" }

abbrev spool : Spool
spool = record {
  table = row 1 ∷ row 2 ∷ row 3 ∷ [];
  next_id = 4;
  counts = [];
  prune_counter = [];
  cursors = [];
}

merge_lem_example :
    (count_of "f" (merge (candidate "medium" 7 ∷ candidate "high" 5 ∷ [])) ≤ 1)
    × (measure ◌+◌ 0 (λ c. c.count) "f" (merge (candidate "medium" 7 ∷ candidate "high" 5 ∷ []))
        ≡ measure ◌+◌ 0 (λ c. c.count) "f" (candidate "medium" 7 ∷ candidate "high" 5 ∷ []))
    × (measure ◌+◌ 0
          (λ c. c.suppressed)
          "f"
          (merge (candidate "medium" 7 ∷ candidate "high" 5 ∷ []))
        ≡ measure ◌+◌ 0 (λ c. c.suppressed) "f" (candidate "medium" 7 ∷ candidate "high" 5 ∷ []))
    × (measure max 0 (λ c. c.latest) "f" (merge (candidate "medium" 7 ∷ candidate "high" 5 ∷ []))
        ≡ measure max 0 (λ c. c.latest) "f" (candidate "medium" 7 ∷ candidate "high" 5 ∷ []))
    × (measure min 5
          (λ c. sev_rank c.severity)
          "f"
          (merge (candidate "medium" 7 ∷ candidate "high" 5 ∷ []))
        ≡ measure min 5
            (λ c. sev_rank c.severity)
            "f"
            (candidate "medium" 7 ∷ candidate "high" 5 ∷ []))
merge_lem_example = merge_lem "f" (candidate "medium" 7 ∷ candidate "high" 5 ∷ [])
