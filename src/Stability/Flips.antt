-- ===== src/Stability/Flips.antt =====
-- About the transitions that `StabilityTracker.add` counts.
use netlog_ai.Prelude.{
  ℕ, suc, ◌+◌, ◌≡◌, refl, ◌∙◌, String, Bool, false, not, ◌&&◌, Option, none, some, List, [], ◌∷◌,
  arith, str_eq, if◌then◌else◌, inl, inr, Bool-cases, Option-cases, lookup, Pair, pair_eq,
  pair_eq_iff, get_pair, get_pair-set_pair,
}
use netlog_ai.Stability.{
  DeviceState, Direction, down, up, Classified, Stamps, down_descriptions, up_descriptions, or_zero,
  count_pair, entity, is_flip, note, add_state, add_severity, add_bucket, add_to_device,
}

-- the state of an entity that an event reports, if it reports one
abbrev pub noted : (String → String) → Classified → DeviceState → Option (Direction × Pair)
noted lower e st = elim (lookup e.description down_descriptions) [
  | some cls ↦ some (down, entity lower st cls e)
  | none ↦ elim (lookup e.description up_descriptions) [
    | some cls ↦ some (up, entity lower st cls e)
    | none ↦ none
  ]
]

-- the events of a device, each with its number, one after the other
pub add_events : Stamps → List (ℕ × Classified) → DeviceState → DeviceState
add_events s [] st = st
add_events s ((seq, e) ∷ es) st = add_events s es (add_to_device s seq e st)

abbrev pub own : Pair → Option (Direction × Pair) → List Direction → List Direction
own k none ds = ds
own k (some (d, j)) ds = if pair_eq j k then d ∷ ds else ds

-- the states that the events report of one entity
pub states_of : Stamps → Pair → List (ℕ × Classified) → DeviceState → List Direction
states_of s k [] st = []
states_of s k ((seq, e) ∷ es) st =
    let rest = states_of s k es (add_to_device s seq e st) in own k (noted s.lower e st) rest

-- the state's name in the report
abbrev pub state_name : Direction → String
state_name down = "down"
state_name up = "up"

-- whether a state is another than the one before it, where there is one
abbrev pub differs : Direction → Option Direction → Bool
differs d none = false
differs d (some before) = not (str_eq (state_name before) (state_name d))

is_flip-differs : (d : Direction) (before : Option Direction) → is_flip d before ≡ differs d before
is_flip-differs d none = refl
is_flip-differs down (some down) = refl
is_flip-differs down (some up) = refl
is_flip-differs up (some down) = refl
is_flip-differs up (some up) = refl

-- how often a sequence of states changes, from a state before it
abbrev pub changes : Option Direction → List Direction → ℕ
changes before [] = 0
changes before (d ∷ ds) =
    let rest = changes (some d) ds in if differs d before then suc rest else rest

abbrev pub flips : Pair → DeviceState → ℕ
flips k st = or_zero (get_pair k st.transitions)

note-flips :
    (d : Direction) (j k : Pair) (st : DeviceState)
    → flips k (note d j st) ≡ (
        if pair_eq j k && is_flip d (get_pair k st.last_state)
        then suc (flips k st)
        else flips k st)
unfolding note count_pair
note-flips d j k st = ground (
  arith,
  get_pair-set_pair j k (suc (or_zero (get_pair j st.transitions))) st.transitions,
  pair_eq_iff j k,
)

note-last :
    (d : Direction) (j k : Pair) (st : DeviceState)
    → get_pair k (note d j st).last_state
      ≡ (if pair_eq j k then some d else get_pair k st.last_state)
unfolding note
note-last d j k st = get_pair-set_pair j k d st.last_state

-- what an event does to an entity is what it reports of it; the totals of the device do not matter
abbrev Follows : (String → String) → Classified → Pair → DeviceState → DeviceState → Type 0
Follows lower e k st st' =
    (flips k st'
      ≡ elim (noted lower e st) [ none ↦ flips k st | some (d, j) ↦ flips k (note d j st) ])
    × (get_pair k st'.last_state ≡ elim (noted lower e st) [
      | none ↦ get_pair k st.last_state
      | some (d, j) ↦ get_pair k (note d j st).last_state
    ])

add_state-Follows :
    (lower : String → String) (e : Classified) (k : Pair) (st : DeviceState) (c h n : ℕ)
    → Follows lower e k st (add_state lower e (record st { criticals = c; highs = h; total = n }))
unfolding add_state entity note
add_state-Follows lower e k st c h n =
    elim (Option-cases (lookup e.description down_descriptions)) [
      | inr (cls, downwards) ↦ rw (downwards, Follows, add_state, noted) (refl, refl)
      | inl no_down ↦ elim (Option-cases (lookup e.description up_descriptions)) [
        | inr (cls, upwards) ↦ rw (no_down, Follows, add_state, noted, upwards) (refl, refl)
        | inl no_up ↦ rw (no_down, Follows, add_state, noted, no_up) (refl, refl)
      ]
    ]

add_to_device-Follows :
    (s : Stamps) (seq : ℕ) (e : Classified) (st : DeviceState) (k : Pair)
    → Follows s.lower e k st (add_to_device s seq e st)
unfolding add_to_device add_bucket
add_to_device-Follows s seq e st k = elim (Bool-cases (str_eq e.severity "critical")) [
  | inl critical ↦
      rw (critical, add_severity, add_to_device, Follows)
        (add_state-Follows s.lower e k st (suc st.criticals) st.highs (suc st.total))
  | inr not_critical ↦ elim (Bool-cases (str_eq e.severity "high")) [
    | inl high ↦
        rw (not_critical, add_severity, add_to_device, Follows, high)
          (add_state-Follows s.lower e k st st.criticals (suc st.highs) (suc st.total))
    | inr not_high ↦
        rw (not_critical, add_severity, add_to_device, Follows, not_high)
          (add_state-Follows s.lower e k st st.criticals st.highs (suc st.total))
  ]
]

-- one state more, in front of those to come
one_more :
    (o : Option (Direction × Pair)) (k : Pair) (st next : DeviceState) (later : List Direction)
    → flips k next ≡ elim o [ none ↦ flips k st | some (d, j) ↦ flips k (note d j st) ]
    → get_pair k next.last_state ≡ elim o [
      | none ↦ get_pair k st.last_state
      | some (d, j) ↦ get_pair k (note d j st).last_state
    ]
    → flips k next + changes (get_pair k next.last_state) later
      ≡ flips k st + changes (get_pair k st.last_state) (own k o later)
one_more none k st next later counted last = rw last (omega (arith, counted))
one_more (some (d, j)) k st next later counted last =
    let flipped = note-flips d j k st in
    let now = last ∙ note-last d j k st in
    let turn = is_flip-differs d (get_pair k st.last_state) in
    elim (Bool-cases (pair_eq j k)) [
      | inl e ↦
          let at : get_pair k next.last_state ≡ some d = ground (arith, now, e) in
          rw (at, e) (ground (arith, counted, flipped, turn, e))
      | inr e ↦
          let at : get_pair k next.last_state ≡ get_pair k st.last_state = ground (arith, now, e) in
          rw (at, e) (ground (arith, counted, flipped, turn, e))
    ]

-- The flips that a device has counted for an entity are those it had, and the places in the sequence of
-- states that the events report of this entity at which the name of the state is another than that of the
-- state before, the last state before the events included: events of other entities do not count, nor do
-- repeats of a state, nor does a first state with none before it.
pub add_events-flips :
    (s : Stamps) (k : Pair) (es : List (ℕ × Classified)) (st : DeviceState)
    → flips k (add_events s es st)
      ≡ flips k st + changes (get_pair k st.last_state) (states_of s k es st)
unfolding add_events states_of
add_events-flips s k [] st = omega arith
add_events-flips s k ((seq, e) ∷ es) st =
    let next = add_to_device s seq e st in
    let (counted, last) = add_to_device-Follows s seq e st k in
    add_events-flips s k es next
    ∙ one_more (noted s.lower e st) k st next (states_of s k es next) counted last
