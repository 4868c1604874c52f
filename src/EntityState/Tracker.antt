-- ===== src/EntityState/Tracker.antt =====
-- `EntityStateTracker`: the bounded, least-recently-updated-first table of entities and `add`.
pub mod Bounds
use netlog_ai.Prelude.{
  ℕ, ◌+◌, String, Bool, true, false, not, ◌||◌, Option, none, some, List, [], ◌∷◌, ◌++◌, ltb, leb,
  str_eq, if◌then◌else◌, length, keep, drop,
}
use netlog_ai.EntityState.Key.{Event, EntityKey, key_eq, entity_key}

-- (timestamp, seq, state); `add` stores no state but "down" and "up"
pub data Direction : Type 0 where
  down up : Direction

pub record Transition : Type 0 where
  pub timestamp : String
  pub seq : ℕ
  pub state : Direction

pub record Slot : Type 0 where
  pub transitions : List Transition
  pub vendor : String
  pub event_type : String
  pub host : String

pub record Tracker : Type 0 where
  pub flap_threshold : ℕ
  pub flap_window_s : ℕ
  pub max_entities : ℕ
  pub max_transitions : ℕ
  -- the OrderedDict, least recently updated first
  pub entities : List (EntityKey × Slot)
  pub dropped_entities : ℕ

pub find : EntityKey → List (EntityKey × Slot) → Option Slot
find k [] = none
find k ((j, s) ∷ l) = if key_eq j k then some s else find k l

-- the entries of the other keys, in order
abbrev pub without : EntityKey → List (EntityKey × Slot) → List (EntityKey × Slot)
without k = keep (λ e. not (key_eq e.0 k))

-- the append, and `del slot["t"][0]` past the limit
unfoldable pub push_transition : ℕ → Transition → Slot → Slot
push_transition limit tr s =
    let longer = s.transitions ++ tr ∷ [] in
    record s { transitions = if ltb limit (length longer) then drop 1 longer else longer }

-- popitem(last=False); `none` is the KeyError of an empty dict
unfoldable pub pop_oldest : List (EntityKey × Slot) → Option (List (EntityKey × Slot))
pop_oldest [] = none
pop_oldest (e ∷ l) = some l

-- room for a new entity
unfoldable pub make_room : Tracker → Option Tracker
make_room t =
    if leb t.max_entities (length t.entities)
    then (elim (pop_oldest t.entities) [
      | none ↦ none
      | some l ↦ some (record t { entities = l; dropped_entities = t.dropped_entities + 1 })
    ])
    else some t

abbrev pub new_slot : Event → Slot
new_slot ev = record {
  transitions = [];
  vendor = ev.vendor;
  event_type = ev.event_type;
  host = ev.hostname;
}

-- the entry goes to the end, with the transition added
abbrev pub put_last : EntityKey → Transition → Slot → Tracker → Tracker
put_last k tr s t = record t {
  entities = without k t.entities ++ (k, push_transition t.max_transitions tr s) ∷ [];
}

-- the transition of a key that is known to be an entity; `none` is the KeyError
unfoldable pub record_transition : EntityKey → Event → Transition → Tracker → Option Tracker
record_transition k ev tr t = elim (find k t.entities) [
  | some s ↦ some (put_last k tr s t)
  | none ↦ elim (make_room t) [ none ↦ none | some t' ↦ some (put_last k tr (new_slot ev) t') ]
]

-- state in ("down", "up")
unfoldable pub direction : String → Option Direction
direction s = if str_eq s "down" then some down else if str_eq s "up" then some up else none

unfoldable pub add : (String → String) → Event → ℕ → Tracker → Option (Option EntityKey × Tracker)
add lower ev seq t = elim (direction ev.state) [
  | none ↦ some (none, t)
  | some d ↦ elim (entity_key lower ev) [
    | none ↦ some (none, t)
    | some k ↦
        elim (record_transition k ev (record { timestamp = ev.timestamp; seq = seq; state = d })
          t) [ none ↦ none | some t' ↦ some (some k, t') ]
  ]
]
