-- ===== src/Triage/Handle/Incident/Examples.antt =====
-- The theorems about the handling of an incident, for one that is due to two sinks of which one fails.
use netlog_ai.Prelude.{
  ◌+◌, String, ◌≡◌, refl, Bool, true, Option, none, some, List, [], ◌∷◌, arith, if◌then◌else◌,
  length, keep, str_eq, lookup, inl,
}
use netlog_ai.StateStore.Lease.{Leases}
use netlog_ai.StateStore.Tickets.{triage_get, triage_put, fenced_off}
use netlog_ai.Triage.Types.{Config, Candidate, sev_rank}
use netlog_ai.Triage.Decide.{open_ticket, decide}
use netlog_ai.Triage.Rate.{expire, rate_ok, note_attempt}
use netlog_ai.Triage.Sinks.{Answer, send, send_from, settle, sink_ready}
use netlog_ai.Triage.Handle.{
  World, fresh_item, hold_back, choose, fresh_choice, base_of, park, settle_debt, add_entry,
  after_put,
}
use netlog_ai.Triage.Handle.Incident.{
  targets_of, conclude, after_send, attempt, deliver, carry_out, handle, put,
}
use netlog_ai.Triage.Handle.Incident.Delivers.{served, owed, handle-delivers}
use netlog_ai.Triage.Handle.Incident.Quiet.{handle-then_holds}

abbrev config : Config
config = record {
  cooldown_s = 900;
  max_tickets_per_hour = 2;
  batch = 1;
  lease_ttl_s = 30;
  sink_backoff_s = 30;
  sink_backoff_max_s = 600;
  sink_breaker_threshold = 3;
  pending_ttl_s = 86400;
}

abbrev candidate : Candidate
candidate = record {
  fingerprint = "f";
  severity = "high";
  state = "active";
  latest = 95;
  count = 1;
  suppressed = 0;
  devices = [];
  summary = "BGP down";
  title = "BGP down";
  related = [];
}

abbrev world : World
world = record {
  tickets = [];
  pending = [];
  send_times = [];
  sink_states = [];
  opened = [];
  updated = [];
  held = 0;
  deferred = 0;
  backoff = 0;
  skipped_recovered = 0;
  errors = [];
}

abbrev sinks : List String
sinks = "thehive" ∷ "servicenow" ∷ []

abbrev always : String → Bool
always name = true

abbrev upsert : String → Option Answer
upsert name = if str_eq name "thehive" then some ("created", "1") else none

abbrev leases : Leases
leases = []

program : Unit {0}
unfolding choose fresh_choice handle carry_out deliver attempt after_send conclude put rate_ok
    note_attempt send send_from settle sink_ready triage_get triage_put fenced_off lookup expire
    decide after_put settle_debt park add_entry targets_of base_of
program = tt

handle-delivers_example :
    served always
        (handle config "a" sinks 500 always upsert 100 leases 100
          (fresh_item candidate none)
          world).world
      + owed always "f"
          (handle config "a" sinks 500 always upsert 100 leases 100
            (fresh_item candidate none)
            world).world
    ≡ served always world + length (keep always (targets_of sinks none))
unfolding program
handle-delivers_example =
    handle-delivers config "a" sinks 500 always upsert 100 leases 100 always
      (fresh_item candidate none) open_ticket none world (λ e. refl) refl refl

handle-then_holds_example :
    choose config 200
      (triage_get "f"
        (handle config "a" sinks 500 always upsert 100 leases 100
          (fresh_item candidate none)
          world).world.tickets)
      (fresh_item candidate none)
    ≡ hold_back
unfolding program
handle-then_holds_example =
    handle-then_holds config "a" sinks 500 always upsert 100 leases 100 200 candidate candidate none
      open_ticket none world refl refl refl (omega arith)
      (record { severity = unfold sev_rank in omega arith; state = refl }) (inl (omega arith))
