-- ===== src/StateStore/Lease/Exclusion.antt =====
-- A lease that is held excludes every other owner until it expires, and then can be taken.
use netlog_ai.Prelude.{
  ℕ, ◌+◌, ◌*◌, ◌≤◌, ◌<◌, String, ◌≡◌, ◌≢◌, ◌⊎◌, refl, Bool, true, false, ◌||◌, none, some, List, [],
  ◌∷◌, arith, eq_iff, lookup, lookup-insert_self, All,
}
use netlog_ai.StateStore.Lease.{Leases, granted, blocks, lease_acquire, lease_release, lease_valid}

-- What other owners do meanwhile, each call with its own clock reading.
pub data Attempt : Type 0 where
  acquire : String → ℕ → Attempt
  release : String → Attempt

-- an attempt on the lease `name`, and whether it was an acquisition that succeeded
pub attempt : String → ℕ → Attempt → Leases → Bool × Leases
attempt name ttl (acquire owner now) t = lease_acquire name owner ttl now t
attempt name ttl (release owner) t = elim (lease_release name owner t) [
  | none ↦ (false, t)
  | some t' ↦ (false, t')
]

-- the table after a sequence of attempts, and whether any of them took the lease
pub attempts : String → ℕ → List Attempt → Leases → Bool × Leases
attempts name ttl [] t = (false, t)
attempts name ttl (a ∷ l) t =
    let (took, t') = attempt name ttl a t in
    let (later, t'') = attempts name ttl l t' in (took || later, t'')

-- an attempt by another owner, at a time from `from` on and before `until`
abbrev pub Foreign : String → ℕ → ℕ → Attempt → Type 0
Foreign owner from until (acquire other now) = (other ≢ owner) × (from ≤ now) × (now < until)
Foreign owner from until (release other) = other ≢ owner

module _ (name owner : String) (ttl from : ℕ) where
  attempt-Foreign :
      (a : Attempt) (t : Leases)
      → lookup name t ≡ some (granted owner ttl from)
      → Foreign owner from (from + ttl) a
      → attempt name ttl a t ≡ (false, t)
  unfolding attempt lease_acquire lease_release blocks
  attempt-Foreign (acquire other now) t h f = ground (arith, eq_iff owner other)
  attempt-Foreign (release other) t h f = ground (arith, eq_iff owner other)

  attempts-Foreign :
      (l : List Attempt) (t : Leases)
      → lookup name t ≡ some (granted owner ttl from)
      → All (Foreign owner from (from + ttl)) l
      → attempts name ttl l t ≡ (false, t)
  unfolding attempts
  attempts-Foreign [] t h f = refl
  attempts-Foreign (a ∷ l) t h f = rw (attempt-Foreign a t h f.0) (attempts-Foreign l t h f.1)

  acquired :
      (t : Leases)
      → (lease_acquire name owner ttl from t).0 ≡ true
      → lookup name (lease_acquire name owner ttl from t).1 ≡ some (granted owner ttl from)
  unfolding lease_acquire
  acquired t h = ground (arith, lookup-insert_self name (granted owner ttl from) t)

  valid_for_owner :
      (t : Leases) (now : ℕ)
      → lookup name t ≡ some (granted owner ttl from)
      → lease_valid name owner now t ≡ true
  unfolding lease_valid
  valid_for_owner t now h = ground (arith, eq_iff owner owner)

  not_valid_for_others :
      (t : Leases) (other : String) (now : ℕ)
      → lookup name t ≡ some (granted owner ttl from)
      → other ≢ owner
      → now < from + ttl
      → lease_valid name other now t ≡ false
  unfolding lease_valid
  not_valid_for_others t other now h ne lt = ground (arith, eq_iff owner other)

  -- Once an owner has taken a lease, none of any sequence of attempts by other owners, to acquire it
  -- from then until it expires or to release it, succeeds or changes a row; and then the lease is
  -- valid for its owner, and before its expiry for no other.
  pub lease_acquire-excludes :
      (t : Leases) (l : List Attempt) (other : String) (now : ℕ)
      → (lease_acquire name owner ttl from t).0 ≡ true
      → All (Foreign owner from (from + ttl)) l
      → other ≢ owner
      → now < from + ttl
      → (attempts name ttl l (lease_acquire name owner ttl from t).1
          ≡ (false, (lease_acquire name owner ttl from t).1))
        × (lease_valid name owner now (lease_acquire name owner ttl from t).1 ≡ true)
        × (lease_valid name other now (lease_acquire name owner ttl from t).1 ≡ false)
  lease_acquire-excludes t l other now ok f ne h =
      let taken = (lease_acquire name owner ttl from t).1 in
      let row = acquired t ok in
      (
        attempts-Foreign l taken row f,
        valid_for_owner taken now row,
        not_valid_for_others taken other now row ne h,
      )

  -- Once an owner has taken a lease, any owner takes it from the expiry on, and any owner whose clock
  -- is so far back that the expiry lies more than two lifetimes ahead.
  pub lease_acquire-expires :
      (t : Leases) (other : String) (now : ℕ)
      → (lease_acquire name owner ttl from t).0 ≡ true
      → (from + ttl ≤ now) ⊎ (now + 2 * ttl < from + ttl)
      → (lease_acquire name other ttl now (lease_acquire name owner ttl from t).1).0 ≡ true
  lease_acquire-expires t other now ok h =
      late (lease_acquire name owner ttl from t).1 (acquired t ok)
    where
      late :
          (u : Leases)
          → lookup name u ≡ some (granted owner ttl from)
          → (lease_acquire name other ttl now u).0 ≡ true
      late u row = unfold lease_acquire blocks in ground (arith, eq_iff owner other)
