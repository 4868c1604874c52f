-- ===== src/Triage/Tick/Examples.antt =====
-- The theorems about a tick, for a spool of two rows and an incident that is pending.
use netlog_ai.Prelude.{
  ℕ, ◌≡◌, refl, String, Bool, true, false, some, List, [], ◌∷◌, ◌++◌, arith, if◌then◌else◌, length,
  keep, str_eq, Dict, All,
}
use netlog_ai.Prelude.Sort.{IsSorted}
use netlog_ai.StateStore.Spool.{Row, Spool, of_source, after}
use netlog_ai.Triage.Types.{Config, Candidate}
use netlog_ai.Triage.Decide.{open_ticket}
use netlog_ai.Triage.Handle.{World, Pending}
use netlog_ai.Triage.Tick.{
  Position, Saved, Env, Role, standby, leading, Tick, cursor_of, is_fresh, items, ingest_all,
  run_once,
}
use netlog_ai.Triage.Tick.Items.{no_later, about, HasRow, items_lem}
use netlog_ai.Triage.Tick.Reads.{run_once-reads}

abbrev config : Config
config = record {
  cooldown_s = 900;
  max_tickets_per_hour = 2;
  batch = 1;
  lease_ttl_s = 30;
  sink_backoff_s = 30;
  sink_backoff_max_s = 600;
  sink_breaker_threshold = 3;
  pending_ttl_s = 86400;
}

abbrev candidate : String → String → Candidate
candidate fp severity = record {
  fingerprint = fp;
  severity = severity;
  state = "active";
  latest = 95;
  count = 1;
  suppressed = 0;
  devices = [];
  summary = "BGP down";
  title = "BGP down";
  related = [];
}

abbrev world : World
world = record {
  tickets = [];
  pending = [];
  send_times = [];
  sink_states = [];
  opened = [];
  updated = [];
  held = 0;
  deferred = 0;
  backoff = 0;
  skipped_recovered = 0;
  errors = [];
}

abbrev waiting : Dict Pending
waiting =
    (
      "f",
      record {
        c = candidate "f" "high";
        action = open_ticket;
        sinks = "thehive" ∷ [];
        since = 90;
        attempts = 1;
        nowhere = false;
      },
    )
    ∷ []

abbrev fresh : List Candidate
fresh = candidate "g" "critical" ∷ candidate "f" "medium" ∷ []

items_lem_example :
    IsSorted no_later (items fresh waiting)
    × ((fp : String)
        → length (keep (about fp) (items fresh waiting)) ≡ (
            if is_fresh fresh fp
            then length (keep (λ c. str_eq c.fingerprint fp) fresh)
            else length (keep (λ row. str_eq row.0 fp) waiting)))
    × All (HasRow fresh waiting) (items fresh waiting)
items_lem_example = items_lem fresh waiting (refl, tt)

abbrev row : ℕ → Row
row id = record { id = id; source = "tcp"; received_at = 9; sender = "10.0.0.1"; line = "x" }

abbrev spool : Spool
spool = record {
  table = row 1 ∷ row 2 ∷ [];
  next_id = 3;
  counts = [];
  prune_counter = [];
  cursors = [];
}

abbrev env : Env
env = record {
  owner = "a";
  sinks = "thehive" ∷ [];
  rand = λ fp. 500;
  leads = λ fp. true;
  leads_at = λ fp name. true;
  upsert = λ fp name. some ("created", "1");
  put_at = λ fp. 100;
  leases = λ fp. [];
}

abbrev saved : Saved
saved = record { cursors = ("tcp", 1) ∷ []; gaps = [] }

abbrev start : Position
start = record { cursors = []; gaps = []; warmed = []; state_loaded = false }

abbrev triage : List Row → List Candidate
triage [] = []
triage (r ∷ rs) = candidate "f" "high" ∷ []

abbrev sources : List String
sources = "tcp" ∷ []

-- the deadline is passed after the first batch
abbrev time_up : String → ℕ → Bool
time_up src n = true

abbrev now_read : Position → List Candidate × Position
now_read pos =
    let (rows, pos') = ingest_all 3 time_up 1 sources (λ src. spool) saved pos in
    (triage rows, pos')

abbrev done : Role → List Row
done standby = []
done leading =
    (ingest_all 3 time_up 1 sources (λ src. spool) saved (record start { state_loaded = true })).0

abbrev tick : Tick
tick = run_once now_read config env 100 start saved [] world

run_once-reads_example :
    (of_source "tcp" (done tick.role)
        ++ after (cursor_of "tcp" tick.position tick.saved) (of_source "tcp" spool.table)
      ≡ after (cursor_of "tcp" start saved) (of_source "tcp" spool.table))
    × (tick.position.cursors ≡ [])
run_once-reads_example =
    run_once-reads 3 time_up 1 (λ src. spool) (λ src. (omega arith, omega arith)) (omega arith)
      (λ src. omega arith) saved triage sources config env 100 start [] world "tcp" refl
