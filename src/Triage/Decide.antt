-- ===== src/Triage/Decide.antt =====
-- `_decide`: open, update, hold or skip an incident, and what that says of ticket storms.
use netlog_ai.Prelude.{
  ℕ, ◌+◌, ◌≤◌, ◌<◌, ◌≡◌, ◌≢◌, Bool, not, ◌&&◌, ◌||◌, Option, none, some, arith, ltb, str_eq, eq_iff,
  if◌then◌else◌, or_text, ◌⊎◌,
}
use netlog_ai.StateStore.Tickets.{Ticket}
use netlog_ai.Triage.Types.{Config, Candidate, sev_rank, is_healed}

pub data Action : Type 0 where
  skip_recovered open_ticket update hold : Action

-- the more severe of a candidate than of its ticket
abbrev pub escalated : Ticket → Candidate → Bool
escalated rec c = ltb (sev_rank c.severity) (sev_rank (or_text rec.severity "info"))

abbrev pub state_changed : Ticket → Candidate → Bool
state_changed rec c = not (str_eq rec.state "") && not (str_eq c.state rec.state)

unfoldable pub decide : Config → Option Ticket → Candidate → ℕ → Action
decide cfg none c now = if is_healed c.state then skip_recovered else open_ticket
decide cfg (some rec) c now =
    if escalated rec c || state_changed rec c
    then update
    else if ltb now (rec.last_sent + cfg.cooldown_s)
    then hold
    else if ltb rec.last_event_at c.latest
    then update
    else hold

-- the ticket that a delivery of `c` at `at` leaves, as far as `decide` reads it
pub record SentBy (c : Candidate) (at : ℕ) (rec : Ticket) : Type 0 where
  pub severity : rec.severity ≡ c.severity
  pub state : rec.state ≡ c.state
  pub last_sent : rec.last_sent ≡ at
  pub last_event_at : rec.last_event_at ≡ c.latest

-- nothing in `d` bypasses the cooldown of a ticket sent for `c`
pub record IsNoWorse (c d : Candidate) : Type 0 where
  pub severity : sev_rank (or_text c.severity "info") ≤ sev_rank d.severity
  pub state : d.state ≡ c.state

module _ (cfg : Config) (c d : Candidate) (at now : ℕ) (rec : Ticket) where
  -- After a delivery, a candidate of the same state that is no more severe is held while the cooldown
  -- lasts, and after it for as long as it has no event newer than the one last reported.
  pub decide-holds :
      SentBy c at rec
      → IsNoWorse c d
      → (now < at + cfg.cooldown_s) ⊎ (d.latest ≤ c.latest)
      → decide cfg (some rec) d now ≡ hold
  unfolding decide
  decide-holds s w quiet =
      rw (s.severity, s.state, w.state, s.last_sent, s.last_event_at)
        (let sev = w.severity in ground (arith, eq_iff c.state c.state))

  -- After a delivery, a candidate that is more severe, or whose state differs from a known one, is
  -- sent at once, cooldown or not; so is one with a newer event once the cooldown is over.
  pub decide-sends :
      SentBy c at rec
      → (sev_rank d.severity < sev_rank (or_text c.severity "info"))
        ⊎ ((c.state ≢ "") × (d.state ≢ c.state))
        ⊎ ((at + cfg.cooldown_s ≤ now) × (c.latest < d.latest))
      → decide cfg (some rec) d now ≡ update
  unfolding decide
  decide-sends s cause =
      rw (s.severity, s.state, s.last_sent, s.last_event_at)
        (ground (arith, eq_iff c.state "", eq_iff d.state c.state))
