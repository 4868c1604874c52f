-- ===== src/Triage/Types.antt =====
-- The configuration, an incident candidate and the severity ranks.
use netlog_ai.Prelude.{ℕ, String, Bool, List, ◌||◌, str_eq, if◌then◌else◌}

pub record Config : Type 0 where
  pub cooldown_s : ℕ
  pub max_tickets_per_hour : ℕ
  pub batch : ℕ
  pub lease_ttl_s : ℕ
  pub sink_backoff_s : ℕ
  pub sink_backoff_max_s : ℕ
  pub sink_breaker_threshold : ℕ
  pub pending_ttl_s : ℕ

-- the entries of a candidate that the worker's control flow reads
pub record Candidate : Type 0 where
  pub fingerprint : String
  pub severity : String
  pub state : String
  pub latest : ℕ
  pub count : ℕ
  pub suppressed : ℕ
  pub devices : List String
  pub summary : String
  pub title : String
  pub related : List String

-- SEV_RANK.get(severity, 5)
unfoldable pub sev_rank : String → ℕ
sev_rank s =
    if str_eq s "critical"
    then 0
    else if str_eq s "high"
    then 1
    else if str_eq s "medium"
    then 2
    else if str_eq s "low"
    then 3
    else if str_eq s "info"
    then 4
    else 5

-- state in ("recovered", "up")
abbrev pub is_healed : String → Bool
is_healed s = str_eq s "recovered" || str_eq s "up"
