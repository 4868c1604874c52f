-- ===== src/EntityState/Status.antt =====
-- `_state_for`, `group_state` and the counts of `summarize`. `event_time` with its reference date is a
-- parameter: it gives the tick of a time stamp that parses. An outage is kept as the pair of its two
-- ends, since the difference may be negative.
pub mod Outcome
use netlog_ai.Prelude.{
  ℕ, zero, suc, ◌+◌, ◌-◌, ◌≤◌, ◌<◌, String, ◌≡◌, ◌↔◌, refl, sym, ◌∙◌, ap, Bool, true, false, not,
  ◌&&◌, ◌||◌, Option, none, some, List, [], ◌∷◌, ◌++◌, arith, ltb, leb, ◌==◌, str_eq, if◌then◌else◌,
  length, length-append, last?, keep, any, map, inl, inr, Bool-cases,
}
use netlog_ai.Prelude.Sort.{sort}
use netlog_ai.EntityState.Key.{EntityKey, key_eq}
use netlog_ai.EntityState.Tracker.{Direction, down, up, Transition, Slot, Tracker}
use netlog_ai.EntityState.Flap.{is_flapping}

-- (when, seq, state, ts)
pub record Timed : Type 0 where
  pub at : Option ℕ
  pub seq : ℕ
  pub state : Direction
  pub ts : String

pub data Status : Type 0 where
  active flapping recovered going_up : Status

pub record EntityReport : Type 0 where
  pub hostname : String
  pub kind : String
  pub entity : String
  pub status : Status
  pub current_state : Option Direction
  pub downs : ℕ
  pub ups : ℕ
  pub first_down : String
  pub last_change : String
  pub outage : Option (ℕ × ℕ)
  pub vendor : String
  pub event_type : String

-- the variables of the loop
pub record Walk : Type 0 where
  pub downs : List (Option ℕ × String)
  pub ups : ℕ
  pub current : Option Direction
  pub last_change : String
  pub outage : Option (ℕ × ℕ)
  pub last_down_at : Option ℕ

abbrev pub start : Walk
start = record {
  downs = [];
  ups = 0;
  current = none;
  last_change = "";
  outage = none;
  last_down_at = none;
}

abbrev pub same_direction : Option Direction → Direction → Bool
same_direction (some down) down = true
same_direction (some up) up = true
same_direction _ _ = false

-- the outage that a recovery at `at` ends, where both ends are known
abbrev pub ended : Option ℕ → Option ℕ → Option (ℕ × ℕ) → Option (ℕ × ℕ)
ended (some d) (some u) before = some (d, u)
ended _ _ before = before

-- a change of state
pub change : Timed → Direction → Walk → Walk
change t down w = record w {
  current = some down;
  last_change = t.ts;
  downs = w.downs ++ (t.at, t.ts) ∷ [];
  last_down_at = t.at;
}
change t up w = record w {
  current = some up;
  last_change = t.ts;
  ups = w.ups + 1;
  outage = ended w.last_down_at t.at w.outage;
}

-- one round: a repeated state is skipped
pub round : Timed → Walk → Walk
round t w = if same_direction w.current t.state then w else change t t.state w

pub walk : List Timed → Walk → Walk
walk [] w = w
walk (t ∷ l) w = walk l (round t w)

abbrev at_or_zero : Option ℕ → ℕ
at_or_zero none = 0
at_or_zero (some n) = n

-- t[0] first, then t[1]
abbrev by_time : Timed → Timed → Bool
by_time a b =
    let x = at_or_zero a.at in let y = at_or_zero b.at in ltb x y || (x == y && leb a.seq b.seq)

abbrev by_arrival : Timed → Timed → Bool
by_arrival a b = leb a.seq b.seq

unfoldable pub has_time : Timed → Bool
has_time t = elim t.at [ none ↦ false | some _ ↦ true ]

abbrev pub time_of : (String → Option ℕ) → Transition → Timed
time_of event_time tr = record {
  at = if str_eq tr.timestamp "" then none else event_time tr.timestamp;
  seq = tr.seq;
  state = tr.state;
  ts = tr.timestamp;
}

-- chronological when every stamp parses; otherwise arrival order
unfoldable pub timeline : (String → Option ℕ) → List Transition → List Timed
unfolding has_time
timeline event_time trs =
    let timed = map (time_of event_time) trs in
    if any (λ t. not (has_time t)) timed then sort by_arrival timed else sort by_time timed

pub status_of : Bool → Walk → Status
status_of flaps w = if flaps then flapping else elim w.downs [
  | [] ↦ going_up
  | _ ↦ if same_direction w.current up then recovered else active
]

abbrev pub is_active : Status → Bool
is_active active = true
is_active _ = false

unfoldable pub state_for : (String → Option ℕ) → ℕ → ℕ → EntityKey → Slot → EntityReport
unfolding timeline
state_for event_time threshold window key slot =
    let w = walk (timeline event_time slot.transitions) start in
    let status = status_of (is_flapping threshold window (map (λ d. d.0) w.downs)) w in
    record {
      hostname = slot.host;
      kind = key.kind;
      entity = key.ident;
      status = status;
      current_state = w.current;
      downs = length w.downs;
      ups = w.ups;
      first_down = elim w.downs [ [] ↦ "" | d ∷ _ ↦ d.1 ];
      last_change = w.last_change;
      outage = if is_active status then none else w.outage;
      vendor = slot.vendor;
      event_type = slot.event_type;
    }

unfoldable pub report : (String → Option ℕ) → Tracker → List (EntityKey × EntityReport)
unfolding state_for
report event_time t =
    map (λ e. (e.0, state_for event_time t.flap_threshold t.flap_window_s e.0 e.1)) t.entities

abbrev pub status_eq : Status → Status → Bool
status_eq active active = true
status_eq flapping flapping = true
status_eq recovered recovered = true
status_eq going_up going_up = true
status_eq _ _ = false

-- `counts[status]` of a list of states
abbrev pub count_status : Status → List EntityReport → ℕ
count_status s l = length (keep (λ r. status_eq r.status s) l)

-- the reports of the keys that have one
pub states_of : List EntityKey → List (EntityKey × EntityReport) → List EntityReport
states_of [] rep = []
states_of (k ∷ ks) rep = map (λ e. e.1) (keep (λ e. key_eq e.0 k) rep) ++ states_of ks rep

-- the status of a group: `none` stands for the empty text
unfoldable pub group_state : List EntityKey → List (EntityKey × EntityReport) → Option Status
unfolding states_of
group_state keys rep = elim (states_of keys rep) [
  | [] ↦ none
  | found ↦
      if ltb 0 (count_status active found)
      then some active
      else if ltb 0 (count_status flapping found)
      then some flapping
      else if ltb 0 (count_status recovered found)
      then some recovered
      else some going_up
]
