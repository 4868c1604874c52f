-- ===== src/Triage/Handle/Incident/Delivers.antt =====
-- No sink that is due an incident is forgotten, and none is both served and still owed.
use netlog_ai.Prelude.{
  ℕ, ◌+◌, String, ◌≡◌, refl, sym, ap, ◌∙◌, Bool, false, not, Option, none, some, List, [], ◌∷◌,
  ◌++◌, arith, length, length-append, keep, keep-append, append_assoc, append-nil, map, lookup,
  lookup-insert_self, lookup-erase, eq_iff, inl, inr, Bool-cases,
}
use netlog_ai.Prelude.Sort.{count-sort}
use netlog_ai.StateStore.Lease.{Leases}
use netlog_ai.StateStore.Tickets.{Ticket, triage_get}
use netlog_ai.Triage.Types.{Config, Candidate}
use netlog_ai.Triage.Decide.{Action, open_ticket, update, hold, skip_recovered}
use netlog_ai.Triage.Rate.{rate_ok}
use netlog_ai.Triage.Sinks.{Answer, sink_ready, send}
use netlog_ai.Triage.Sinks.Delivery.{send_partition, answers}
use netlog_ai.Triage.Handle.{
  Pending, Entry, World, Item, deliver_to, choose, park, settle_debt, add_entry, entry_of,
  after_put, str_leb,
}
use netlog_ai.Triage.Handle.Incident.{
  targets_of, candidate_of, pending_of, conclude, after_send, attempt, deliver, carry_out, handle,
}

-- the sinks that took incidents in this tick
abbrev pub sinks_of : List Entry → List String
sinks_of [] = []
sinks_of (e ∷ es) = map (λ r. r.0) e.results ++ sinks_of es

-- the sinks of a pending row
abbrev pub owed_in : Option Pending → List String
owed_in none = []
owed_in (some p) = p.sinks

-- how many sinks with a property took an incident in this tick, and how many are owed one
abbrev pub served : (String → Bool) → World → ℕ
served p w = length (keep p (sinks_of w.opened)) + length (keep p (sinks_of w.updated))

abbrev pub owed : (String → Bool) → String → World → ℕ
owed p fp w = length (keep p (owed_in (lookup fp w.pending)))

sinks_of-append : (l k : List Entry) → sinks_of (l ++ k) ≡ sinks_of l ++ sinks_of k
sinks_of-append [] k = refl
sinks_of-append (e ∷ l) k =
    ap (λ x. map (λ r. r.0) e.results ++ x) (sinks_of-append l k)
    ∙ sym (append_assoc _ (sinks_of l) (sinks_of k))

count-keep-not :
    (p q : String → Bool) (l : List String)
    → length (keep p (keep q l)) + length (keep p (keep (λ n. not (q n)) l)) ≡ length (keep p l)
count-keep-not p q [] = omega arith
count-keep-not p q (n ∷ l) = ground (arith, count-keep-not p q l)

count-append :
    (p : String → Bool) (l k : List String)
    → length (keep p (l ++ k)) ≡ length (keep p l) + length (keep p k)
count-append p l k = rw (keep-append, length-append)

count-entry :
    (p : String → Bool) (l : List Entry) (e : Entry)
    → length (keep p (sinks_of (l ++ e ∷ [])))
      ≡ length (keep p (sinks_of l)) + length (keep p (map (λ r. r.0) e.results))
count-entry p l e =
    ap (λ x. length (keep p x)) (sinks_of-append l (e ∷ []))
    ∙ count-append p (sinks_of l) _
    ∙ ap (λ x. length (keep p (sinks_of l)) + length (keep p x)) (append-nil _)

add_entry-served :
    (p : String → Bool) (a : Action) (e : Entry) (w : World)
    → (served p (add_entry a e w) ≡ served p w + length (keep p (map (λ r. r.0) e.results)))
      × ((add_entry a e w).pending ≡ w.pending)
unfolding add_entry
add_entry-served p open_ticket e w = (omega (arith, count-entry p w.opened e), refl)
add_entry-served p update e w = (omega (arith, count-entry p w.updated e), refl)
add_entry-served p hold e w = (omega (arith, count-entry p w.updated e), refl)
add_entry-served p skip_recovered e w = (omega (arith, count-entry p w.updated e), refl)

park-owed :
    (p : String → Bool) (now : ℕ) (c : Candidate) (a : Action) (l : List String)
    (pend : Option Pending) (b : Bool) (w : World)
    → (owed p c.fingerprint (park now c a l pend b w) ≡ length (keep p l))
      × (served p (park now c a l pend b w) ≡ served p w)
unfolding park
park-owed p now c a l pend b w = (rw lookup-insert_self (count-sort str_leb p l), refl)

settle_debt-owed :
    (p : String → Bool) (now : ℕ) (c : Candidate) (a : Action) (l : List String)
    (pend : Option Pending) (w : World)
    → (pend ≡ none → lookup c.fingerprint w.pending ≡ none)
    → (owed p c.fingerprint (settle_debt now c a l pend w) ≡ length (keep p l))
      × (served p (settle_debt now c a l pend w) ≡ served p w)
unfolding settle_debt
settle_debt-owed p now c a [] none w h = (ap (λ o. length (keep p (owed_in o))) (h refl), refl)
settle_debt-owed p now c a [] (some q) w h =
    (rw lookup-erase (ground (arith, eq_iff c.fingerprint c.fingerprint)), refl)
settle_debt-owed p now c a (n ∷ l) pend w h = park-owed p now c a (n ∷ l) pend false w

-- the balance of an incident whose handling went through: the sinks served and still owed are those
-- served before and the targets
abbrev Balanced : (String → Bool) → String → List String → World → World → Type 0
Balanced p fp targets w w' = served p w' + owed p fp w' ≡ served p w + length (keep p targets)

module _ (cfg : Config) (owner : String) (sinks : List String) (rand : ℕ) (leader : String → Bool)
    (upsert : String → Option Answer) (put_at : ℕ) (leases : Leases) (now : ℕ) (p : String → Bool)
    (c : Candidate) (a : Action) (rec : Option Ticket) (pend : Option Pending) where
  after_put-Balanced :
      (left : List String) (results : List (String × Answer)) (w : World)
      (t : Option (List (String × Ticket)))
      → (pend ≡ none → lookup c.fingerprint w.pending ≡ none)
      → (after_put now c a left pend results w t).lost ≡ false
      → served p (after_put now c a left pend results w t).world
          + owed p c.fingerprint (after_put now c a left pend results w t).world
        ≡ served p w + length (keep p (map (λ r. r.0) results)) + length (keep p left)
  unfolding after_put
  after_put-Balanced left results w none h k = absurd (ground arith)
  after_put-Balanced left results w (some t) h k =
      let w1 = record w { tickets = t } in
      let (o, s) = settle_debt-owed p now c a left pend w1 h in
      let (s', same) =
        add_entry-served p a (entry_of c results) (settle_debt now c a left pend w1) in
      rw same (omega (arith, o, s, s'))

  conclude-Balanced :
      (left : List String) (results : List (String × Answer)) (w : World)
      → (pend ≡ none → lookup c.fingerprint w.pending ≡ none)
      → (conclude cfg owner sinks rand leader upsert put_at leases now c a rec pend left results
          w).lost
        ≡ false
      → served p
            (conclude cfg owner sinks rand leader upsert put_at leases now c a rec pend left results
              w).world
          + owed p c.fingerprint
              (conclude cfg owner sinks rand leader upsert put_at leases now c a rec pend left
                results w).world
        ≡ served p w + length (keep p (map (λ r. r.0) results)) + length (keep p left)
  unfolding conclude
  conclude-Balanced left [] w h k = omega (arith, park-owed p now c a left pend _ w)
  conclude-Balanced left (r ∷ rs) w h k = after_put-Balanced left (r ∷ rs) w _ h k

  after_send-Balanced :
      (ready waiting : List String) (w : World)
      → (pend ≡ none → lookup c.fingerprint w.pending ≡ none)
      → (after_send cfg owner sinks rand leader upsert put_at leases now c a rec pend waiting w
          (send cfg rand leader upsert now ready w.sink_states)).lost
        ≡ false
      → served p
            (after_send cfg owner sinks rand leader upsert put_at leases now c a rec pend waiting w
              (send cfg rand leader upsert now ready w.sink_states)).world
          + owed p c.fingerprint
              (after_send cfg owner sinks rand leader upsert put_at leases now c a rec pend waiting
                w
                (send cfg rand leader upsert now ready w.sink_states)).world
        ≡ served p w + length (keep p ready) + length (keep p waiting)
  unfolding after_send
  after_send-Balanced ready waiting w h k =
      let sent = send cfg rand leader upsert now ready w.sink_states in
      elim (Bool-cases sent.lease_gone) [
        | inl gone ↦ absurd (ground arith)
        | inr held ↦
            let (took, failed) =
              send_partition cfg rand leader upsert now ready w.sink_states held in
            let goes = conclude-Balanced (sent.failed ++ waiting) sent.results _ h (rw held at k) in
            let split = count-keep-not p (answers upsert) ready in
            rw (held, after_send)
              (omega (
                arith,
                goes,
                split,
                count-append p sent.failed waiting,
                ap (λ l. length (keep p l)) took,
                ap (λ l. length (keep p l)) failed,
              ))
      ]

  attempt-Balanced :
      (ready targets : List String) (w : World)
      → (pend ≡ none → lookup c.fingerprint w.pending ≡ none)
      → ready ≡ keep (λ n. sink_ready n now w.sink_states) targets
      → (attempt cfg owner sinks rand leader upsert put_at leases now c a rec pend targets ready
          w).lost
        ≡ false
      → Balanced p c.fingerprint targets w
          (attempt cfg owner sinks rand leader upsert put_at leases now c a rec pend targets ready
            w).world
  unfolding attempt
  attempt-Balanced [] targets w h e k =
      omega (arith, park-owed p now c a targets pend _ (record w { backoff = w.backoff + 1 }))
  attempt-Balanced (n ∷ ns) targets w h e k =
      let goes =
        after_send-Balanced (n ∷ ns) (keep (λ n. not (sink_ready n now w.sink_states)) targets) w h
          k in
      omega (
        arith,
        goes,
        ap (λ l. length (keep p l)) e,
        count-keep-not p (λ n. sink_ready n now w.sink_states) targets,
      )

  deliver-Balanced :
      (targets : List String) (w : World)
      → (pend ≡ none → lookup c.fingerprint w.pending ≡ none)
      → (deliver cfg owner sinks rand leader upsert put_at leases now c a rec pend targets w).lost
        ≡ false
      → Balanced p c.fingerprint targets w
          (deliver cfg owner sinks rand leader upsert put_at leases now c a rec pend targets
            w).world
  unfolding deliver
  deliver-Balanced targets w h k =
      let (ok, left) = rate_ok cfg.max_tickets_per_hour now w.send_times in
      let w1 = record w { send_times = left } in
      elim (Bool-cases ok) [
        | inl room ↦ rw (room, deliver) (attempt-Balanced _ targets w1 h refl (rw room at k))
        | inr full ↦
            rw (full, deliver)
              (omega (
                arith,
                park-owed p now c a targets pend _ (record w1 { deferred = w1.deferred + 1 }),
              ))
      ]

-- If handling an incident comes to a delivery, and the lease is not lost on the way, then for every
-- property of sinks: the number of sinks with it that were served in this tick or are now owed the
-- incident is the number that were served before plus the number it was due to. An item without a
-- pending row must be of an incident that has none.
pub handle-delivers :
    (cfg : Config) (owner : String) (sinks : List String) (rand : ℕ) (leader : String → Bool)
    (upsert : String → Option Answer) (put_at : ℕ) (leases : Leases) (now : ℕ) (p : String → Bool)
    (item : Item) (a : Action) (due : Option (List String)) (w : World)
    → (pending_of item ≡ none → lookup (candidate_of item).fingerprint w.pending ≡ none)
    → choose cfg now (triage_get (candidate_of item).fingerprint w.tickets) item ≡ deliver_to a due
    → (handle cfg owner sinks rand leader upsert put_at leases now item w).lost ≡ false
    → served p (handle cfg owner sinks rand leader upsert put_at leases now item w).world
        + owed p
            (candidate_of item).fingerprint
            (handle cfg owner sinks rand leader upsert put_at leases now item w).world
      ≡ served p w + length (keep p (targets_of sinks due))
unfolding handle carry_out
handle-delivers cfg owner sinks rand leader upsert put_at leases now p item a due w h chosen k =
    rw chosen (
      deliver-Balanced cfg owner sinks rand leader upsert put_at leases now p (candidate_of item) a
        (triage_get (candidate_of item).fingerprint w.tickets) (pending_of item)
        (targets_of sinks due) w h (rw chosen at k))
