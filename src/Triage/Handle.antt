-- ===== src/Triage/Handle.antt =====
-- `_handle`, `_park` and `_put`: one incident of a tick. A sink stands for its name. The lease table and the
-- clock reading of `_put` are parameters, as are the lease checks and the answers of the sinks.
pub mod Incident
use Prim.Native.Nat.{Ordering}
use Prim.Native.String.{compare}
use netlog_ai.Prelude.{
  ℕ, ◌+◌, String, Bool, true, false, not, Option, none, some, List, [], ◌∷◌, ◌++◌, str_eq,
  if◌then◌else◌, any, keep, map, Dict, lookup, insert, erase, clip, join,
}
use netlog_ai.Prelude.Sort.{sort}
use netlog_ai.StateStore.Lease.{Leases}
use netlog_ai.StateStore.Tickets.{Ticket, Tickets, triage_get, triage_put}
use netlog_ai.Triage.Types.{Config, Candidate}
use netlog_ai.Triage.Decide.{Action, skip_recovered, open_ticket, update, hold, decide}
use netlog_ai.Triage.Rate.{rate_ok, note_attempt}
use netlog_ai.Triage.Sinks.{SinkState, Answer, Sent, sink_ready, send}
use netlog_ai.Triage.Leader.{lease_name}

-- a row of the namespace `triage_pending`
pub record Pending : Type 0 where
  pub c : Candidate
  pub action : Action
  pub sinks : List String
  pub since : ℕ
  pub attempts : ℕ
  pub nowhere : Bool

-- what a tick reports of an incident that it sent
pub record Entry : Type 0 where
  pub fingerprint : String
  pub title : String
  pub severity : String
  pub devices : List String
  pub results : List (String × Answer)

-- the state that an incident may change, and the counters of the tick
pub record World : Type 0 where
  pub tickets : Tickets
  pub pending : Dict Pending
  pub send_times : List ℕ
  pub sink_states : Dict SinkState
  pub opened : List Entry
  pub updated : List Entry
  pub held : ℕ
  pub deferred : ℕ
  pub backoff : ℕ
  pub skipped_recovered : ℕ
  -- the sinks of the error texts
  pub errors : List String

-- `lost`: `_LeaseGone` or `LeaseLost` was raised, which ends the tick
pub record Handled : Type 0 where
  pub world : World
  pub lost : Bool

-- an element of `items`: a fresh candidate with its pending row, or a pending row alone
pub data Item : Type 0 where
  fresh_item : Candidate → Option Pending → Item
  orphan : Pending → Item

-- What `_handle` comes to before it looks at the limit and the sinks; the list of a delivery is `owed`,
-- `none` for every sink.
pub data Choice : Type 0 where
  skip hold_back : Choice
  deliver_to : Action → Option (List String) → Choice

abbrev pub str_leb : String → String → Bool
str_leb a b = elim (compare a b) [ Ordering.gt ↦ false | _ ↦ true ]

abbrev pub no_owner : Option Ticket → Bool
no_owner none = true
no_owner (some rec) = false

-- "update" if rec is not None else "open"
abbrev pub due_action : Option Ticket → Action
due_action none = open_ticket
due_action (some rec) = update

-- what the decision on a fresh candidate comes to
pub fresh_choice : Option Ticket → Option Pending → Action → Choice
fresh_choice rec pend skip_recovered = skip
fresh_choice rec none hold = hold_back
fresh_choice rec (some p) hold = deliver_to (due_action rec) (some p.sinks)
fresh_choice rec pend open_ticket = deliver_to open_ticket none
fresh_choice rec pend update = deliver_to update none

pub choose : Config → ℕ → Option Ticket → Item → Choice
choose cfg now rec (orphan p) = deliver_to (due_action rec) (some p.sinks)
choose cfg now rec (fresh_item c pend) = fresh_choice rec pend (decide cfg rec c now)

-- the `base` of a new or a known ticket
pub base_of : ℕ → Candidate → Option Ticket → Ticket
base_of now c (some rec) = rec
base_of now c none = record {
  fingerprint = c.fingerprint;
  first_seen = now;
  last_seen = 0;
  last_sent = 0;
  severity = c.severity;
  event_count = 0;
  last_event_at = 0;
  sends = 0;
  held = 0;
  state = c.state;
  title = "";
  refs = [];
}

-- list(dict.fromkeys(…)): the first of equal elements stays
pub distinct_refs : List String → List String → List String
distinct_refs seen [] = []
distinct_refs seen (r ∷ rs) =
    let skipped = distinct_refs seen rs in
    let kept = distinct_refs (r ∷ seen) rs in if any (str_eq r) seen then skipped else r ∷ kept

-- "<sink>:<ref>"
abbrev pub ref_of : String × Answer → String
ref_of r = join r.0 (join ":" r.1.1)

-- the ticket that a delivery writes
pub sent_ticket : ℕ → Candidate → List (String × Answer) → Ticket → Ticket
sent_ticket now c results base = record base {
  last_seen = now;
  last_sent = now;
  severity = c.severity;
  event_count = c.count;
  last_event_at = c.latest;
  sends = base.sends + 1;
  state = c.state;
  title = clip 300 c.title;
  refs = distinct_refs [] (base.refs ++ map ref_of results);
}

pub since_of : ℕ → Option Pending → ℕ
since_of now none = now
since_of now (some p) = p.since

pub attempts_of : Option Pending → ℕ
attempts_of none = 0
attempts_of (some p) = p.attempts

pub park : ℕ → Candidate → Action → List String → Option Pending → Bool → World → World
park now c action names pend nowhere w = record w {
  pending =
      insert c.fingerprint
        (record {
          c = c;
          action = action;
          sinks = sort str_leb names;
          since = since_of now pend;
          attempts = attempts_of pend + 1;
          nowhere = nowhere;
        })
        w.pending;
}

-- the end of a delivery: what is still owed is parked, a settled debt is deleted
pub settle_debt : ℕ → Candidate → Action → List String → Option Pending → World → World
settle_debt now c action [] none w = w
settle_debt now c action [] (some p) w = record w { pending = erase c.fingerprint w.pending }
settle_debt now c action (n ∷ ns) pend w = park now c action (n ∷ ns) pend false w

-- tick["opened" if action == "open" else "updated"].append(entry)
pub add_entry : Action → Entry → World → World
add_entry open_ticket e w = record w { opened = w.opened ++ e ∷ [] }
add_entry skip_recovered e w = record w { updated = w.updated ++ e ∷ [] }
add_entry update e w = record w { updated = w.updated ++ e ∷ [] }
add_entry hold e w = record w { updated = w.updated ++ e ∷ [] }

abbrev pub entry_of : Candidate → List (String × Answer) → Entry
entry_of c results = record {
  fingerprint = c.fingerprint;
  title = c.title;
  severity = c.severity;
  devices = c.devices;
  results = results;
}

-- the steps that follow `_put`, which may have found the lease lost
pub after_put :
    ℕ
    → Candidate
    → Action
    → List String
    → Option Pending
    → List (String × Answer)
    → World
    → Option Tickets
    → Handled
after_put now c action undelivered pend results w none = record { world = w; lost = true }
after_put now c action undelivered pend results w (some tickets) = record {
  world =
      add_entry action (entry_of c results)
        (settle_debt now c action undelivered pend (record w { tickets = tickets }));
  lost = false;
}
