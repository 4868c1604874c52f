-- ===== src/Triage/Window.antt =====
-- The sliding window: `_process` with `_Seen.bump`, `_warm`, and the trimming at the end of `_ingest`. What the
-- parsers make of a line and the classifier of an event are parameters. Objects that the source
-- shares (the entry that a marker points to) have numbers.
pub mod Thins
mod Examples
use netlog_ai.Prelude.{
  ℕ, suc, ◌+◌, max, ◌&&◌, ◌||◌, not, String, Bool, true, false, Option, none, some, List, [], ◌∷◌,
  ◌++◌, leb, ltb, ◌==◌, str_eq, if◌then◌else◌, length, keep, map, Pair, PairDict, get_pair,
  set_pair,
}
use netlog_ai.StateStore.Spool.{Row}

-- an event that a line is parsed into, as far as the window reads it
pub record Event : Type 0 where
  pub hostname : String
  pub message : String
  pub sender_ip : String

pub record Classified : Type 0 where
  pub severity : String
  pub event_type : String

-- _Windowed, with its number
pub record Windowed : Type 0 where
  pub number : ℕ
  pub received_at : ℕ
  pub event : Event
  pub dups : ℕ

-- where a marker counts its duplicates: at an event of this batch that is not yet classified, at an entry
-- of the window, or nowhere that is read again
pub data Target : Type 0 where
  of_batch of_window : ℕ → Target
  unseen : Target

pub record Seen : Type 0 where
  pub first_at : ℕ
  pub target : Target

-- an event of the batch, with the `extra` and `last_at` of its marker
pub record Kept : Type 0 where
  pub number : ℕ
  pub stamp : ℕ
  pub event : Event
  pub extra : ℕ
  pub last_at : ℕ

pub record Window : Type 0 where
  pub entries : List Windowed
  pub recent : PairDict Seen
  pub next_number : ℕ
  pub duplicates_dropped : ℕ

pub record Batch : Type 0 where
  pub kept : List Kept
  pub window : Window

pub bump_kept : ℕ → ℕ → List Kept → List Kept
bump_kept n at [] = []
bump_kept n at (k ∷ ks) =
    let rest = bump_kept n at ks in
    if k.number == n
    then record k { extra = suc k.extra; last_at = max k.last_at at } ∷ rest
    else k ∷ rest

pub bump_entry : ℕ → ℕ → List Windowed → List Windowed
bump_entry n at [] = []
bump_entry n at (w ∷ ws) =
    let rest = bump_entry n at ws in
    if w.number == n
    then record w { dups = suc w.dups; received_at = max w.received_at at } ∷ rest
    else w ∷ rest

-- `_Seen.bump`
pub bump : Target → ℕ → Batch → Batch
bump (of_batch n) at b = record b { kept = bump_kept n at b.kept }
bump (of_window n) at b = record b {
  window = record b.window { entries = bump_entry n at b.window.entries };
}
bump unseen at b = b

abbrev pub key_of : Event → Pair
key_of ev = (ev.hostname, ev.message)

-- the first copy, or one that comes later than `dedup_s` after the last that was kept
pub keep_event : ℕ → Event → Batch → Batch
keep_event at ev b =
    let w = b.window in
    record {
      kept =
          b.kept
          ++ record { number = w.next_number; stamp = at; event = ev; extra = 0; last_at = 0 } ∷ [];
      window = record w {
        recent =
            set_pair (key_of ev) (record { first_at = at; target = of_batch w.next_number })
              w.recent;
        next_number = suc w.next_number;
      };
    }

pub drop_event : ℕ → Seen → Batch → Batch
drop_event at seen b =
    bump seen.target at (record b {
      window = record b.window { duplicates_dropped = suc b.window.duplicates_dropped };
    })

pub admit : ℕ → ℕ → Event → Batch → Batch
admit dedup_s at ev b = elim (get_pair (key_of ev) b.window.recent) [
  | none ↦ keep_event at ev b
  | some seen ↦
      if leb at (seen.first_at + dedup_s) then drop_event at seen b else keep_event at ev b
]

-- the event of a row: `parse` is the parsers' answer for a line with its default host
pub event_of : (String → String → Option Event) → Row → Option Event
event_of parse r = elim (parse r.line (if str_eq r.sender "" then r.source else r.sender)) [
  | none ↦ none
  | some ev ↦ some (if str_eq r.sender "" then ev else record ev { sender_ip = r.sender })
]

-- a row of the spool
pub take_row : (String → String → Option Event) → ℕ → ℕ → Row → Batch → Batch
take_row parse dedup_s horizon r b =
    if ltb r.received_at horizon
    then b
    else elim (event_of parse r) [ none ↦ b | some ev ↦ admit dedup_s r.received_at ev b ]

pub take_rows : (String → String → Option Event) → ℕ → ℕ → List Row → Batch → Batch
take_rows parse dedup_s horizon [] b = b
take_rows parse dedup_s horizon (r ∷ rs) b =
    take_rows parse dedup_s horizon rs (take_row parse dedup_s horizon r b)

-- ce.severity in ("critical", "high", "medium") or ce.event_type
pub is_wanted : Classified → Bool
is_wanted ce =
    str_eq ce.severity "critical"
    || (str_eq ce.severity "high" || (str_eq ce.severity "medium" || not (str_eq ce.event_type "")))

abbrev pub aims_at : ℕ → Target → Bool
aims_at n (of_batch m) = m == n
aims_at n (of_window m) = false
aims_at n unseen = false

-- the marker of an event that is classified now
pub aim : ℕ → Target → PairDict Seen → PairDict Seen
aim n t [] = []
aim n t ((k, s) ∷ l) =
    let rest = aim n t l in
    if aims_at n s.target then (k, record s { target = t }) ∷ rest else (k, s) ∷ rest

abbrev pub entry_of : Kept → Windowed
entry_of k = record {
  number = k.number;
  received_at = if k.extra == 0 then k.stamp else max k.stamp k.last_at;
  event = k.event;
  dups = k.extra;
}

-- the second loop: entries for the events that are wanted; how many there are
pub settle : (Event → Classified) → List Kept → Window → ℕ × Window
settle classify [] w = (0, w)
settle classify (k ∷ ks) w =
    let (n, wanted) = settle classify ks (record w {
      entries = w.entries ++ entry_of k ∷ [];
      recent = aim k.number (of_window k.number) w.recent;
    }) in
    let (m, unwanted) = settle classify ks (record w { recent = aim k.number unseen w.recent }) in
    if is_wanted (classify k.event) then (suc n, wanted) else (m, unwanted)

-- `_process`
pub process :
    (String → String → Option Event) → (Event → Classified) → ℕ → ℕ → List Row → Window → ℕ × Window
process parse classify dedup_s horizon rows w =
    let b = take_rows parse dedup_s horizon rows (record { kept = []; window = w }) in
    settle classify b.kept b.window

-- the window's head is dropped while it is too old, or there are too many entries
pub trim : ℕ → ℕ → List Windowed → List Windowed
trim horizon max_window_events [] = []
trim horizon max_window_events (w ∷ ws) =
    let rest = trim horizon max_window_events ws in
    if ltb w.received_at horizon || ltb max_window_events (length (w ∷ ws)) then rest else w ∷ ws

-- the markers that go on: now - max(dedup_s, 1) <= first_at
pub forget : ℕ → ℕ → PairDict Seen → PairDict Seen
forget dedup_s now = keep (λ row. leb now (row.1.first_at + max dedup_s 1))
