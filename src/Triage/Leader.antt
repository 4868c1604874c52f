-- ===== src/Triage/Leader.antt =====
-- `_still_leader`: the lease check, and its renewal when a quarter of the lifetime has passed.
use netlog_ai.Prelude.{
  ℕ, ◌+◌, ◌*◌, ◌<◌, String, ◌≡◌, ◌≢◌, Bool, true, false, leb, if◌then◌else◌, [],
}
use netlog_ai.StateStore.Lease.{Leases, lease_acquire, lease_valid}
use netlog_ai.StateStore.Lease.Exclusion.{lease_acquire-excludes}

abbrev pub lease_name : String
lease_name = "triage-worker"

-- the answer, the time of the last renewal, and the lease table
pub record Check : Type 0 where
  pub leads : Bool
  pub last_renew : ℕ
  pub leases : Leases

-- the renewal: a refusal leaves the time of the last one
pub renew : String → ℕ → ℕ → ℕ → Leases → Check
renew owner ttl t last_renew leases =
    let (ok, leases') = lease_acquire lease_name owner ttl t leases in
    if ok
    then record { leads = true; last_renew = t; leases = leases' }
    else record { leads = false; last_renew = last_renew; leases = leases' }

-- t - last_renew >= lease_ttl_s / 4
unfoldable pub still_leader : String → ℕ → ℕ → ℕ → Leases → Check
still_leader owner ttl t last_renew leases =
    if lease_valid lease_name owner t leases
    then (if leb (4 * last_renew + ttl) (4 * t)
        then renew owner ttl t last_renew leases
        else record { leads = true; last_renew = last_renew; leases = leases })
    else record { leads = false; last_renew = last_renew; leases = leases }

-- While one worker's lease runs, every other worker that checks whether it still leads is told that it
-- does not, and the check changes no lease.
pub still_leader-excludes :
    (owner other : String) (ttl from t last_renew : ℕ) (leases : Leases)
    → (lease_acquire lease_name owner ttl from leases).0 ≡ true
    → other ≢ owner
    → t < from + ttl
    → still_leader other ttl t last_renew (lease_acquire lease_name owner ttl from leases).1
      ≡ record {
        leads = false;
        last_renew = last_renew;
        leases = (lease_acquire lease_name owner ttl from leases).1;
      }
unfolding still_leader
still_leader-excludes owner other ttl from t last_renew leases ok ne h =
    rw (lease_acquire-excludes lease_name owner ttl from leases [] other t ok tt ne h).2
