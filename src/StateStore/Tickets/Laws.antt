-- ===== src/StateStore/Tickets/Laws.antt =====
-- The fence of `triage_put` against the leases, and what a prune keeps.
use mathlib.Core.Option
use netlog_ai.Prelude.{
  ap, ℕ, ◌+◌, ◌≤◌, ◌<◌, String, ◌≡◌, ◌≢◌, ◌⊎◌, Bool, true, not, none, some, [], ◌∷◌, arith, str_eq,
  eq_iff, lookup-insert, All, keep, length, inl, inr, Bool-cases, if◌then◌else◌,
}
use netlog_ai.StateStore.Lease.{Leases, lease_acquire, lease_valid}
use netlog_ai.StateStore.Lease.Exclusion.{lease_acquire-excludes}
use netlog_ai.StateStore.Tickets.{
  Ticket, Tickets, triage_get, fenced_off, triage_put, is_stale, triage_prune,
}

fenced_off-valid :
    (name owner : String) (now : ℕ) (leases : Leases)
    → fenced_off name owner now leases ≡ not (lease_valid name owner now leases)
unfolding fenced_off lease_valid
fenced_off-valid name owner now leases = ground arith

-- A fenced write goes through exactly if the lease is valid for its owner; then the ticket is read back
-- under its fingerprint, and every other ticket is as it was.
pub triage_put_fenced :
    (name owner fp : String) (now : ℕ) (rec : Ticket) (leases : Leases) (t : Tickets)
    → Option.map (triage_get fp) (triage_put (some (name, owner)) now rec leases t) ≡ (
        if lease_valid name owner now leases
        then some (if str_eq rec.fingerprint fp then some rec else triage_get fp t)
        else none)
unfolding triage_put triage_get
triage_put_fenced name owner fp now rec leases t =
    elim (Bool-cases (lease_valid name owner now leases)) [
      | inl e ↦ rw (fenced_off-valid, e) (ap some (lookup-insert rec.fingerprint fp rec t))
      | inr e ↦ rw (fenced_off-valid, e)
    ]

-- A worker whose lease another owner has taken cannot overwrite its successor's tickets: until the new
-- lease expires, each of its fenced writes is refused.
pub triage_put_stalled :
    (name owner successor : String) (ttl from now : ℕ) (rec : Ticket) (leases : Leases)
    (t : Tickets)
    → (lease_acquire name successor ttl from leases).0 ≡ true
    → owner ≢ successor
    → now < from + ttl
    → triage_put (some (name, owner)) now rec (lease_acquire name successor ttl from leases).1 t
      ≡ none
unfolding triage_put
triage_put_stalled name owner successor ttl from now rec leases t ok ne h = rw (
  fenced_off-valid,
  (lease_acquire-excludes name successor ttl from leases [] owner now ok tt ne h).2,
)

module _ (retention now : ℕ) where
  abbrev kept : String × Ticket → Bool
  kept kr = not (is_stale retention now kr.1)

  -- active, or seen within the retention time
  abbrev pub IsWanted : String × Ticket → Type 0
  IsWanted kr = (kr.1.state ≡ "active") ⊎ (now ≤ kr.1.last_seen + retention)

  keep-IsWanted : (t : Tickets) → All IsWanted (keep kept t)
  keep-IsWanted [] = tt
  keep-IsWanted (kr ∷ t) = elim (Bool-cases (kept kr)) [
    | inl e ↦ rw e (wanted kr e, keep-IsWanted t)
    | inr e ↦ rw e (keep-IsWanted t)
  ]
    where
      wanted : (kr : String × Ticket) → kept kr ≡ true → IsWanted kr
      wanted kr e = ground (arith, eq_iff kr.1.state "active")

  count_stale :
      (t : Tickets)
      → length (keep kept t) + length (keep (λ kr. is_stale retention now kr.1) t) ≡ length t
  count_stale [] = omega arith
  count_stale (kr ∷ t) = elim (Bool-cases (is_stale retention now kr.1)) [
    | inl e ↦ rw e (omega (arith, count_stale t))
    | inr e ↦ rw e (omega (arith, count_stale t))
  ]

  -- A prune leaves only tickets that are active or were seen within the retention time; it returns the
  -- number of the stale ones, the rows that are gone.
  pub triage_prune_lem :
      (t : Tickets)
      → All IsWanted (triage_prune retention now t).1
        × ((triage_prune retention now t).0 ≡ length (keep (λ kr. is_stale retention now kr.1) t))
        × (length (triage_prune retention now t).1 + (triage_prune retention now t).0 ≡ length t)
  unfolding triage_prune
  triage_prune_lem t = (keep-IsWanted t, omega (arith, count_stale t), omega (arith, count_stale t))
