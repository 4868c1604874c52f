-- ===== src/StateStore/Tickets.antt =====
-- The triage tickets of state_store.py: `triage_get`, the fenced `triage_put`, `triage_prune`, `triage_all`.
pub mod Laws
use netlog_ai.Prelude.{
  ℕ, ◌+◌, ◌-◌, String, Bool, true, false, not, ◌&&◌, ◌||◌, Option, none, some, List, [], ◌∷◌, ltb,
  leb, str_eq, if◌then◌else◌, Dict, lookup, insert, keep, length,
}
use netlog_ai.StateStore.Lease.{Held, Leases, held_of, owned_by}

pub record Ticket : Type 0 where
  pub fingerprint : String
  pub first_seen : ℕ
  pub last_seen : ℕ
  pub last_sent : ℕ
  pub severity : String
  pub event_count : ℕ
  pub last_event_at : ℕ
  pub sends : ℕ
  pub held : ℕ
  pub state : String
  pub title : String
  pub refs : List String

abbrev pub Tickets : Type 0
Tickets = Dict Ticket

unfoldable pub triage_get : String → Tickets → Option Ticket
triage_get fingerprint t = lookup fingerprint t

-- the test that raises `LeaseLost`: another owner holds the lease, and it has not expired
unfoldable pub fenced_off : String → String → ℕ → Leases → Bool
fenced_off name owner now leases = elim (lookup name leases) [
  | none ↦ false
  | some row ↦ not (owned_by owner (held_of row)) && ltb now (held_of row).expires
]

-- `none` is `LeaseLost`: the transaction rolls back
unfoldable pub triage_put :
    Option (String × String) → ℕ → Ticket → Leases → Tickets → Option Tickets
triage_put none now rec leases t = some (insert rec.fingerprint rec t)
triage_put (some (name, owner)) now rec leases t =
    if fenced_off name owner now leases then none else some (insert rec.fingerprint rec t)

-- last_seen < now - retention_s, and the state is not 'active'
abbrev pub is_stale : ℕ → ℕ → Ticket → Bool
is_stale retention now r = ltb (r.last_seen + retention) now && not (str_eq r.state "active")

-- the number of deleted rows, and the table
unfoldable pub triage_prune : ℕ → ℕ → Tickets → ℕ × Tickets
triage_prune retention now t =
    let left = keep (λ kr. not (is_stale retention now kr.1)) t in (length t - length left, left)
