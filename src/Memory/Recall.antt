-- ===== src/Memory/Recall.antt =====
-- What a store answers from, after any events.
use netlog_ai.Prelude.{ℕ, ◌<◌, String, ◌≡◌, []}
use netlog_ai.StateStore.Incidents.{Journal}
use netlog_ai.Memory.{Store, Event, recorded, appended, looked_up}
use netlog_ai.Memory.Coherence.{IsCoherent}

-- no other worker appends between the two reads after an append of this one
abbrev pub Undisturbed : Event → Type 0
Undisturbed (recorded marker fault others new later) = later ≡ []
Undisturbed (appended new) = Unit
Undisturbed (looked_up fault later) = Unit

module _ (size : String → ℕ) (cap : ℕ) (positive : 0 < cap) where
  abbrev Coherent : Store → Journal → Type 0
  Coherent = IsCoherent size cap positive
