-- ===== src/Triage/Handle/Incident.antt =====
-- `_handle` itself, from the limit and the sinks to the ticket.
pub mod Delivers
pub mod Quiet
mod Examples
use netlog_ai.Prelude.{
  ℕ, ◌+◌, String, Bool, true, false, not, Option, none, some, List, [], ◌∷◌, ◌++◌, str_eq,
  if◌then◌else◌, any, keep, Dict, erase,
}
use netlog_ai.StateStore.Lease.{Leases}
use netlog_ai.StateStore.Tickets.{Ticket, triage_get, triage_put}
use netlog_ai.Triage.Types.{Config, Candidate}
use netlog_ai.Triage.Decide.{Action}
use netlog_ai.Triage.Rate.{rate_ok, note_attempt}
use netlog_ai.Triage.Sinks.{SinkState, Answer, Sent, sink_ready, send}
use netlog_ai.Triage.Leader.{lease_name}
use netlog_ai.Triage.Handle.{
  Pending, World, Handled, Item, fresh_item, orphan, Choice, skip, hold_back, deliver_to, no_owner,
  choose, base_of, sent_ticket, park, after_put,
}

-- [s for s in self.sinks if owed is None or s.name in owed]
pub targets_of : List String → Option (List String) → List String
targets_of sinks none = sinks
targets_of sinks (some owed) = keep (λ n. any (str_eq n) owed) sinks

abbrev pub candidate_of : Item → Candidate
candidate_of (fresh_item c pend) = c
candidate_of (orphan p) = p.c

abbrev pub pending_of : Item → Option Pending
pending_of (fresh_item c pend) = pend
pending_of (orphan p) = some p

-- a settled or recovered incident is no longer owed
pub forget : Candidate → Option Pending → World → World
forget c none w = w
forget c (some p) w = record w { pending = erase c.fingerprint w.pending }

-- `put_at` and `leases` are the clock and the lease table that `_put` meets.
module _ (cfg : Config) (owner : String) (sinks : List String) (rand : ℕ) (leader : String → Bool)
    (upsert : String → Option Answer) (put_at : ℕ) (leases : Leases) (now : ℕ) where
  pub put : Ticket → World → Option (List (String × Ticket))
  put rec w = triage_put (some (lease_name, owner)) put_at rec leases w.tickets

  -- after `_send` returned
  pub conclude :
      Candidate
      → Action
      → Option Ticket
      → Option Pending
      → List String
      → List (String × Answer)
      → World
      → Handled
  conclude c action rec pend undelivered [] w = record {
    world = park now c action undelivered pend (no_owner rec) w;
    lost = false;
  }
  conclude c action rec pend undelivered (r ∷ rs) w =
      after_put now c action undelivered pend (r ∷ rs) w
        (put (sent_ticket now c (r ∷ rs) (base_of now c rec)) w)

  -- the sinks that are not backing off, and those that are
  abbrev pub ready_of : World → List String → List String
  ready_of w = keep (λ n. sink_ready n now w.sink_states)

  abbrev pub waiting_of : World → List String → List String
  waiting_of w = keep (λ n. not (sink_ready n now w.sink_states))

  -- the end of the delivery after `_send`, which may have found the lease gone
  pub after_send :
      Candidate → Action → Option Ticket → Option Pending → List String → World → Sent → Handled
  after_send c action rec pend waiting w sent =
      if sent.lease_gone
      then record { world = record w { sink_states = sent.states }; lost = true }
      else conclude c action rec pend (sent.failed ++ waiting) sent.results (record w {
        sink_states = sent.states;
        send_times = note_attempt now w.send_times;
        errors = w.errors ++ sent.failed;
      })

  -- with room in the hourly limit; the list is that of the ready sinks
  pub attempt :
      Candidate
      → Action
      → Option Ticket
      → Option Pending
      → List String
      → List String
      → World
      → Handled
  attempt c action rec pend targets [] w = record {
    world = park now c action targets pend (no_owner rec) (record w { backoff = w.backoff + 1 });
    lost = false;
  }
  attempt c action rec pend targets (n ∷ ns) w =
      after_send c action rec pend (waiting_of w targets) w
        (send cfg rand leader upsert now (n ∷ ns) w.sink_states)

  pub deliver : Candidate → Action → Option Ticket → Option Pending → List String → World → Handled
  deliver c action rec pend targets w =
      let (ok, left) = rate_ok cfg.max_tickets_per_hour now w.send_times in
      let w1 = record w { send_times = left } in
      if ok then attempt c action rec pend targets (ready_of w1 targets) w1 else record {
        world =
            park now c action targets pend (no_owner rec)
              (record w1 { deferred = w1.deferred + 1 });
        lost = false;
      }

  pub after_hold : World → Option (List (String × Ticket)) → Handled
  after_hold w none = record { world = w; lost = true }
  after_hold w (some tickets) = record {
    world = record w { tickets = tickets; held = w.held + 1 };
    lost = false;
  }

  pub held_ticket : Ticket → Ticket
  held_ticket base = record base { last_seen = now; held = base.held + 1 }

  pub carry_out : Candidate → Option Ticket → Option Pending → Choice → World → Handled
  carry_out c rec pend skip w = record {
    world = record (forget c pend w) { skipped_recovered = w.skipped_recovered + 1 };
    lost = false;
  }
  carry_out c rec pend hold_back w = after_hold w (put (held_ticket (base_of now c rec)) w)
  carry_out c rec pend (deliver_to action owed) w =
      deliver c action rec pend (targets_of sinks owed) w

  pub handle : Item → World → Handled
  handle item w =
      let c = candidate_of item in
      let rec = triage_get c.fingerprint w.tickets in
      carry_out c rec (pending_of item) (choose cfg now rec item) w
