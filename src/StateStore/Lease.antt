-- ===== src/StateStore/Lease.antt =====
-- The leases of state_store.py: rows of `kv` in the namespace `lease`, one key for each lease.
-- A row whose text does not decode as JSON is `none`. Times are clock ticks, so `now + ttl_s` is exact.
pub mod Exclusion
use netlog_ai.Prelude.{
  ℕ, ◌+◌, ◌*◌, String, Bool, true, false, not, ◌&&◌, ◌||◌, Option, none, some, List, [], ◌∷◌, ltb,
  leb, str_eq, if◌then◌else◌, Dict, lookup, insert, erase,
}

-- {"owner": …, "expires": …}
pub record Held : Type 0 where
  pub owner : Option String
  pub expires : ℕ

abbrev pub Leases : Type 0
Leases = Dict (Option Held)

-- `held = {}`: no owner, and an expiry of 0
abbrev pub nobody : Held
nobody = record { owner = none; expires = 0 }

-- the `try: held = json.loads(…) except: held = {}`
abbrev pub held_of : Option Held → Held
held_of none = nobody
held_of (some h) = h

-- held.get("owner") == owner
abbrev pub owned_by : String → Held → Bool
owned_by owner h = elim h.owner [ none ↦ false | some o ↦ str_eq o owner ]

-- The test that refuses a lease: another owner's, not expired, and its expiry not so far ahead
-- that the clock must have stepped back since it was written.
unfoldable pub blocks : String → ℕ → ℕ → Held → Bool
blocks owner ttl now h =
    not (owned_by owner h) && (ltb now h.expires && leb h.expires (now + 2 * ttl))

abbrev pub granted : String → ℕ → ℕ → Option Held
granted owner ttl now = some (record { owner = some owner; expires = now + ttl })

unfoldable pub lease_acquire : String → String → ℕ → ℕ → Leases → Bool × Leases
lease_acquire name owner ttl now t = elim (lookup name t) [
  | none ↦ (true, insert name (granted owner ttl now) t)
  | some row ↦
      if blocks owner ttl now (held_of row)
      then (false, t)
      else (true, insert name (granted owner ttl now) t)
]

-- `none`: the row does not decode, and the exception of `json.loads` leaves the table as it was
unfoldable pub lease_release : String → String → Leases → Option Leases
lease_release name owner t = elim (lookup name t) [
  | none ↦ some t
  | some none ↦ none
  | some (some h) ↦ some (if owned_by owner h then erase name t else t)
]

unfoldable pub lease_valid : String → String → ℕ → Leases → Bool
lease_valid name owner now t = elim (lookup name t) [
  | none ↦ true
  | some none ↦ true
  | some (some h) ↦ owned_by owner h || leb h.expires now
]
