-- ===== src/EntityState/Examples.antt =====
-- The theorems about entity_state.py at a concrete tracker and timeline.
use mathlib.Core.Option
use netlog_ai.Prelude.{
  ℕ, ◌+◌, ◌≤◌, String, ◌≡◌, ◌≢◌, ◌↔◌, true, Option, some, [], ◌∷◌, arith, length, last?, map, keep,
  if◌then◌else◌, str_eq,
}
use netlog_ai.Prelude.Sort.{sort, insert_sorted}
use netlog_ai.EntityState.Key.{Event, EntityKey}
use netlog_ai.EntityState.Tracker.{Transition, Slot, Tracker, down, up, find, record_transition}
use netlog_ai.EntityState.Tracker.Bounds.{IsValid, is_new, record_transition-IsValid}
use netlog_ai.EntityState.Flap.{within, is_flapping, is_flapping_iff}
use netlog_ai.EntityState.Status.{timeline, state_for, has_time}
use netlog_ai.EntityState.Status.Outcome.{down_times, label, final, state_for-label}

abbrev key : String → EntityKey
key ident = record { hostname = "r1"; kind = "bgp"; ident = ident }

abbrev event : Event
event = record {
  event_type = "bgp_session";
  state = "down";
  hostname = "r1";
  vendor = "cisco";
  timestamp = "t";
  peer_ip = "10.0.0.2";
  vrf = "";
  interface = "";
  tunnel_id = "";
  healthcheck = "";
  neighbor = "";
}

abbrev went_down : Transition
went_down = record { timestamp = "t"; seq = 1; state = down }

abbrev came_up : Transition
came_up = record { timestamp = "u"; seq = 2; state = up }

abbrev slot : Slot
slot = record {
  transitions = went_down ∷ came_up ∷ [];
  vendor = "cisco";
  event_type = "bgp_session";
  host = "r1";
}

-- a tracker with room for one entity, which it holds
abbrev full : Tracker
full = record {
  flap_threshold = 2;
  flap_window_s = 60;
  max_entities = 1;
  max_transitions = 2;
  entities = (key "a", slot) ∷ [];
  dropped_entities = 0;
}

full-IsValid : IsValid full
full-IsValid = record {
  room = omega arith;
  depth = omega arith;
  bounded = omega arith;
  distinct = (tt, tt);
  fits = ((omega arith, omega arith), tt);
}

record_transition-IsValid_example :
    (t' : Tracker) × (record_transition (key "b") event went_down full ≡ some t')
    × IsValid t'
    × (Option.map (λ e. e.0) (last? t'.entities) ≡ some (key "b"))
    × (length t'.entities + t'.dropped_entities ≡ 1 + 0 + is_new (find (key "b") full.entities))
record_transition-IsValid_example =
    record_transition-IsValid (key "b") event went_down full full-IsValid

is_flapping_iff_example :
    (is_flapping 2 60 (map some (300 ∷ 100 ∷ 340 ∷ [])) ≡ true)
    ↔ ((from : ℕ) × (2 ≤ length (keep (within 60 from) (300 ∷ 100 ∷ 340 ∷ []))))
is_flapping_iff_example = is_flapping_iff 2 60 (300 ∷ 100 ∷ 340 ∷ []) (omega arith)

abbrev event_time : String → Option ℕ
event_time s = some (if str_eq s "t" then 100 else 160)

state_for-label_example :
    ((state_for event_time 2 60 (key "a") slot).status
      ≡ label
          (is_flapping 2 60 (down_times event_time 2 60 (key "a") slot))
          (timeline event_time slot.transitions))
    × ((state_for event_time 2 60 (key "a") slot).current_state
        ≡ final (timeline event_time slot.transitions))
state_for-label_example = state_for-label event_time 2 60 (key "a") slot not_empty
  where
    not_empty : timeline event_time slot.transitions ≢ []
    not_empty e = unfold timeline has_time sort insert_sorted in absurd (cc e)
