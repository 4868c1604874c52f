-- ===== src/EntityState/Status/Outcome.antt =====
-- What the label and the counts of an entity say about its transitions.
use netlog_ai.Prelude.{
  ℕ, ◌+◌, ◌≤◌, ◌<◌, String, ◌≡◌, ◌≢◌, refl, ◌∙◌, ap, Bool, true, not, ◌||◌, Option, none, some,
  List, [], ◌∷◌, ◌++◌, arith, ltb, if◌then◌else◌, length, length-append, last?, any, map,
}
use netlog_ai.EntityState.Key.{EntityKey}
use netlog_ai.EntityState.Tracker.{Direction, down, up, Slot}
use netlog_ai.EntityState.Flap.{is_flapping}
use netlog_ai.EntityState.Status.{
  Timed, Status, active, flapping, recovered, going_up, EntityReport, Walk, start, same_direction,
  change, round, walk, timeline, status_of, is_active, state_for,
}

-- The direction that stands last in a list of transitions.
abbrev pub final : List Timed → Option Direction
final l = elim (last? l) [ none ↦ none | some t ↦ some t.state ]

abbrev pub is_down : Timed → Bool
is_down t = same_direction (some t.state) down

-- the direction that a list of transitions, taken from some direction on, ends in
abbrev ending : Option Direction → List Timed → Option Direction
ending d [] = d
ending d (t ∷ l) = ending (some t.state) l

round-current : (t : Timed) (w : Walk) → (round t w).current ≡ some t.state
unfolding round change
round-current t w = ground arith

walk-current : (l : List Timed) (w : Walk) → (walk l w).current ≡ ending w.current l
unfolding walk
walk-current [] w = refl
walk-current (t ∷ l) w = walk-current l (round t w) ∙ ap (λ d. ending d l) (round-current t w)

ending-final :
    (t : Timed) (d : Option Direction) (l : List Timed) → ending d (t ∷ l) ≡ final (t ∷ l)
ending-final t d [] = refl
ending-final t d (x ∷ l) = ending-final x (some t.state) l

-- a direction "down" was counted
abbrev WasCounted : Walk → Type 0
WasCounted w = same_direction w.current down ≡ true → 0 < length w.downs

round-WasCounted : (t : Timed) (w : Walk) → WasCounted w → WasCounted (round t w)
unfolding round change
round-WasCounted t w h = ground (arith, length-append w.downs ((t.at, t.ts) ∷ []))

round-downs :
    (t : Timed) (w : Walk)
    → WasCounted w
    → ltb 0 (length (round t w).downs) ≡ (ltb 0 (length w.downs) || is_down t)
unfolding round change
round-downs t w h = ground (arith, length-append w.downs ((t.at, t.ts) ∷ []))

walk-downs :
    (l : List Timed) (w : Walk)
    → WasCounted w
    → ltb 0 (length (walk l w).downs) ≡ (ltb 0 (length w.downs) || any is_down l)
unfolding walk
walk-downs [] w h = ground arith
walk-downs (t ∷ l) w h =
    ground (arith, walk-downs l (round t w) (round-WasCounted t w h), round-downs t w h)

-- downs and ups alternate
record Alternates (w : Walk) : Type 0 where
  near_ups : w.ups ≤ length w.downs + 1
  near_downs : length w.downs ≤ w.ups + 1
  at_down : w.current ≡ some down → w.ups ≤ length w.downs
  at_up : w.current ≡ some up → length w.downs ≤ w.ups
  at_start : w.current ≡ none → w.ups ≡ length w.downs

round-Alternates : (t : Timed) (w : Walk) → Alternates w → Alternates (round t w)
unfolding round change
round-Alternates t w h = record {
  near_ups = ground (arith, near_downs, near_ups, at_down, at_up, at_start, longer);
  near_downs = ground (arith, near_downs, near_ups, at_down, at_up, at_start, longer);
  at_down = ground (arith, near_downs, near_ups, at_down, at_up, at_start, longer);
  at_up = ground (arith, near_downs, near_ups, at_down, at_up, at_start, longer);
  at_start = ground (arith, near_downs, near_ups, at_down, at_up, at_start, longer);
}
  where
    open h use {near_ups, near_downs, at_down, at_up, at_start}

    longer : length (w.downs ++ (t.at, t.ts) ∷ []) ≡ length w.downs + 1
    longer = length-append w.downs ((t.at, t.ts) ∷ [])

walk-Alternates : (l : List Timed) (w : Walk) → Alternates w → Alternates (walk l w)
unfolding walk
walk-Alternates [] w h = h
walk-Alternates (t ∷ l) w h = walk-Alternates l (round t w) (round-Alternates t w h)

start-Alternates : Alternates start
start-Alternates = record {
  near_ups = omega arith;
  near_downs = omega arith;
  at_down = λ e. omega arith;
  at_up = λ e. omega arith;
  at_start = λ e. refl;
}

-- the label, from the directions on the timeline alone
abbrev pub label : Bool → List Timed → Status
label flaps l =
    if flaps
    then flapping
    else if not (any is_down l)
    then going_up
    else if same_direction (final l) up
    then recovered
    else active

walk-final : (t : Timed) (l : List Timed) → (walk (t ∷ l) start).current ≡ final (t ∷ l)
walk-final t l = walk-current (t ∷ l) start ∙ ending-final t none l

status_of-label :
    (flaps : Bool) (t : Timed) (l : List Timed)
    → status_of flaps (walk (t ∷ l) start) ≡ label flaps (t ∷ l)
unfolding status_of
status_of-label flaps t l =
    ground (arith, walk-final t l, walk-downs (t ∷ l) start (λ e. absurd (ground arith)))

module _ (event_time : String → Option ℕ) (threshold window : ℕ) (key : EntityKey)
    (slot : Slot) where
  abbrev path : List Timed
  path = timeline event_time slot.transitions

  abbrev outcome : EntityReport
  outcome = state_for event_time threshold window key slot

  -- the down times that the flap test sees
  abbrev pub down_times : List (Option ℕ)
  down_times = map (λ d. d.0) (walk path start).downs

  -- An entity that is not flapping is going up if its timeline holds no "down", recovered if the timeline holds
  -- one and ends in "up", and active otherwise; its current state is the last one on the timeline.
  pub state_for-label :
      path ≢ []
      → (outcome.status ≡ label (is_flapping threshold window down_times) path)
        × (outcome.current_state ≡ final path)
  unfolding state_for
  state_for-label h = go path h
    where
      go :
          (l : List Timed)
          → l ≢ []
          → (status_of
                (is_flapping threshold window (map (λ d. d.0) (walk l start).downs))
                (walk l start)
              ≡ label (is_flapping threshold window (map (λ d. d.0) (walk l start).downs)) l)
            × ((walk l start).current ≡ final l)
      go [] h = absurd (h refl)
      go (t ∷ l) h = (
        status_of-label (is_flapping threshold window (map (λ d. d.0) (walk (t ∷ l) start).downs)) t
            l,
        walk-final t l,
      )

  -- The counted outages and recoveries alternate, so they differ by one at most, and an active
  -- entity has no outage length.
  pub state_for-alternates :
      (outcome.ups ≤ outcome.downs + 1)
      × (outcome.downs ≤ outcome.ups + 1)
      × ((if is_active outcome.status then outcome.outage else none) ≡ none)
  unfolding state_for
  state_for-alternates =
      let w = walk-Alternates path start start-Alternates in
      (w.near_ups, w.near_downs, ground arith)
