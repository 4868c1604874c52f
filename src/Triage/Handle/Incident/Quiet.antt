-- ===== src/Triage/Handle/Incident/Quiet.antt =====
-- After a delivery the ticket keeps further sends of the incident back until the cooldown is over.
use netlog_ai.Prelude.{
  ℕ, ◌+◌, ◌≤◌, ◌<◌, String, ◌≡◌, refl, ap, ◌∙◌, Bool, false, Option, none, some, List, [], ◌∷◌,
  arith, length, lookup-insert_self, inl, inr, Bool-cases, ◌⊎◌, subst,
}
use netlog_ai.StateStore.Lease.{Leases}
use netlog_ai.StateStore.Tickets.{Ticket, Tickets, triage_get, triage_put}
use netlog_ai.Triage.Types.{Config, Candidate}
use netlog_ai.Triage.Decide.{
  Action, hold, SentBy, IsNoWorse, decide-holds, open_ticket, update, skip_recovered,
}
use netlog_ai.Triage.Rate.{rate_ok}
use netlog_ai.Triage.Sinks.{Answer, Sent}
use netlog_ai.Triage.Handle.{
  Pending, Entry, World, fresh_item, hold_back, deliver_to, choose, fresh_choice, base_of,
  sent_ticket, park, settle_debt, add_entry, after_put,
}
use netlog_ai.Triage.Handle.Incident.{
  targets_of, conclude, after_send, attempt, deliver, carry_out, handle, put,
}

-- the entries of a tick
abbrev pub entries : World → ℕ
entries w = length w.opened + length w.updated

settle_debt-tickets :
    (now : ℕ) (c : Candidate) (a : Action) (l : List String) (pend : Option Pending) (w : World)
    → ((settle_debt now c a l pend w).tickets ≡ w.tickets)
unfolding settle_debt park
settle_debt-tickets now c a [] none w = refl
settle_debt-tickets now c a [] (some p) w = refl
settle_debt-tickets now c a (n ∷ l) pend w = refl

add_entry-tickets : (a : Action) (e : Entry) (w : World) → (add_entry a e w).tickets ≡ w.tickets
unfolding add_entry
add_entry-tickets open_ticket e w = refl
add_entry-tickets update e w = refl
add_entry-tickets hold e w = refl
add_entry-tickets skip_recovered e w = refl

park-entries :
    (now : ℕ) (c : Candidate) (a : Action) (l : List String) (pend : Option Pending) (b : Bool)
    (w : World)
    → entries (park now c a l pend b w) ≡ entries w
unfolding park
park-entries now c a l pend b w = refl

-- a ticket of the table that says what was sent of a candidate
abbrev pub IsSent : Candidate → ℕ → World → Type 0
IsSent c at w = (rec : Ticket) × (triage_get c.fingerprint w.tickets ≡ some rec) × SentBy c at rec

triage_put-inserts :
    (name owner : String) (now : ℕ) (rec : Ticket) (leases : Leases) (t u : Tickets)
    → triage_put (some (name, owner)) now rec leases t ≡ some u
    → triage_get rec.fingerprint u ≡ some rec
unfolding triage_put triage_get
triage_put-inserts name owner now rec leases t u h =
    ground (arith, h, lookup-insert_self rec.fingerprint rec t)

module _ (cfg : Config) (owner : String) (sinks : List String) (rand : ℕ) (leader : String → Bool)
    (upsert : String → Option Answer) (put_at : ℕ) (leases : Leases) (now : ℕ) (c : Candidate)
    (a : Action) (rec : Option Ticket) (pend : Option Pending)
    (named : (base_of now c rec).fingerprint ≡ c.fingerprint) where
  after_put-IsSent :
      (left : List String) (results : List (String × Answer)) (w : World) (ticket : Ticket)
      (o : Option Tickets)
      → ((u : Tickets) → o ≡ some u → triage_get c.fingerprint u ≡ some ticket)
      → SentBy c now ticket
      → (after_put now c a left pend results w o).lost ≡ false
      → IsSent c now (after_put now c a left pend results w o).world
  unfolding after_put
  after_put-IsSent left results w ticket none found sent k = absurd (ground arith)
  after_put-IsSent left results w ticket (some t) found sent k = (
    ticket,
    ap (triage_get c.fingerprint) (
          add_entry-tickets a _ _
          ∙ settle_debt-tickets now c a left pend (record w { tickets = t }))
        ∙ found t refl,
    sent,
  )

  sent_ticket-SentBy :
      (results : List (String × Answer))
      → (SentBy c now (sent_ticket now c results (base_of now c rec)))
        × ((sent_ticket now c results (base_of now c rec)).fingerprint ≡ c.fingerprint)
  unfolding sent_ticket
  sent_ticket-SentBy results =
      (record { severity = refl; state = refl; last_sent = refl; last_event_at = refl }, named)

  conclude-IsSent :
      (left : List String) (results : List (String × Answer)) (w : World)
      → (conclude cfg owner sinks rand leader upsert put_at leases now c a rec pend left results
          w).lost
        ≡ false
      → entries w
        < entries
            (conclude cfg owner sinks rand leader upsert put_at leases now c a rec pend left results
              w).world
      → IsSent c now
          (conclude cfg owner sinks rand leader upsert put_at leases now c a rec pend left results
            w).world
  unfolding conclude put
  conclude-IsSent left [] w k m = absurd (omega (arith, park-entries now c a left pend _ w))
  conclude-IsSent left (r ∷ rs) w k m =
      let ticket = sent_ticket now c (r ∷ rs) (base_of now c rec) in
      let (sent, name) = sent_ticket-SentBy (r ∷ rs) in
      after_put-IsSent left (r ∷ rs) w ticket _
        (λ u e.
          subst (λ fp. triage_get fp u ≡ some ticket) name
            (triage_put-inserts _ owner put_at ticket leases w.tickets u e))
        sent k

  send-IsSent :
      (waiting : List String) (w : World) (s : Sent)
      → (after_send cfg owner sinks rand leader upsert put_at leases now c a rec pend waiting w
          s).lost
        ≡ false
      → entries w
        < entries
            (after_send cfg owner sinks rand leader upsert put_at leases now c a rec pend waiting w
              s).world
      → IsSent c now
          (after_send cfg owner sinks rand leader upsert put_at leases now c a rec pend waiting w
            s).world
  unfolding after_send
  send-IsSent waiting w s k m = elim (Bool-cases s.lease_gone) [
    | inl gone ↦ absurd (ground arith)
    | inr held ↦ rw (held, after_send) (conclude-IsSent _ s.results _ (rw held at k) (rw held at m))
  ]

  attempt-IsSent :
      (targets ready : List String) (w : World)
      → (attempt cfg owner sinks rand leader upsert put_at leases now c a rec pend targets ready
          w).lost
        ≡ false
      → entries w
        < entries
            (attempt cfg owner sinks rand leader upsert put_at leases now c a rec pend targets ready
              w).world
      → IsSent c now
          (attempt cfg owner sinks rand leader upsert put_at leases now c a rec pend targets ready
            w).world
  unfolding attempt park
  attempt-IsSent targets [] w k m = absurd (omega (arith, m))
  attempt-IsSent targets (n ∷ ns) w k m = send-IsSent _ w _ k m

  deliver-IsSent :
      (targets : List String) (w : World)
      → (deliver cfg owner sinks rand leader upsert put_at leases now c a rec pend targets w).lost
        ≡ false
      → entries w
        < entries
            (deliver cfg owner sinks rand leader upsert put_at leases now c a rec pend targets
              w).world
      → IsSent c now
          (deliver cfg owner sinks rand leader upsert put_at leases now c a rec pend targets
            w).world
  unfolding deliver park
  deliver-IsSent targets w k m =
      elim (Bool-cases (rate_ok cfg.max_tickets_per_hour now w.send_times).0) [
        | inl room ↦ rw (room, deliver) (attempt-IsSent targets _ _ (rw room at k) (rw room at m))
        | inr full ↦ absurd (omega (arith, rw full at m))
      ]

-- If handling a fresh candidate sent it to at least one sink, and the lease was not lost on the way, then
-- any later candidate of the same state that is no more severe, and has nothing pending, is held back
-- while the cooldown lasts, and after that for as long as it has no newer event. A ticket of the
-- table must stand under its own fingerprint.
pub handle-then_holds :
    (cfg : Config) (owner : String) (sinks : List String) (rand : ℕ) (leader : String → Bool)
    (upsert : String → Option Answer) (put_at : ℕ) (leases : Leases) (now later : ℕ)
    (c d : Candidate) (pend : Option Pending) (a : Action) (due : Option (List String)) (w : World)
    → (base_of now c (triage_get c.fingerprint w.tickets)).fingerprint ≡ c.fingerprint
    → choose cfg now (triage_get c.fingerprint w.tickets) (fresh_item c pend) ≡ deliver_to a due
    → (handle cfg owner sinks rand leader upsert put_at leases now (fresh_item c pend) w).lost
      ≡ false
    → entries w
      < entries
          (handle cfg owner sinks rand leader upsert put_at leases now (fresh_item c pend) w).world
    → IsNoWorse c d
    → (later < now + cfg.cooldown_s) ⊎ (d.latest ≤ c.latest)
    → choose cfg later
        (triage_get c.fingerprint
          (handle cfg owner sinks rand leader upsert put_at leases now
            (fresh_item c pend)
            w).world.tickets)
        (fresh_item d none)
      ≡ hold_back
unfolding choose fresh_choice handle carry_out
handle-then_holds cfg owner sinks rand leader upsert put_at leases now later c d pend a due w named
      chosen k m worse quiet =
    let (rec, found, sent) : IsSent c now
        (handle cfg owner sinks rand leader upsert put_at leases now (fresh_item c pend) w).world =
      rw chosen (
        deliver-IsSent cfg owner sinks rand leader upsert put_at leases now c a
          (triage_get c.fingerprint w.tickets) pend named (targets_of sinks due) w (rw chosen at k)
          (rw chosen at m)) in
    rw (found, decide-holds cfg c d now later rec sent worse quiet)
