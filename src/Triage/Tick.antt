-- ===== src/Triage/Tick.antt =====
-- One tick of the worker: `_run_active` and `run_once`, with `_load_state`, `_commit` and `_reset_active_state`.
-- The candidates of the window are a parameter (they are merged already), and so is what changes from one
-- incident to the next: lease checks, the answers of sinks, and the table and clock that `_put` meets.
pub mod Items
mod Commit
pub mod Reads
mod Examples
use netlog_ai.Prelude.{
  ℕ, ◌+◌, ◌-◌, String, Bool, true, false, not, ◌&&◌, ◌||◌, Option, none, some, List, [], ◌∷◌, ◌++◌,
  ltb, leb, ◌==◌, str_eq, if◌then◌else◌, any, keep, map, Dict, lookup, insert, erase,
}
use netlog_ai.Prelude.Sort.{sort}
use netlog_ai.StateStore.Lease.{Leases, lease_acquire}
use netlog_ai.StateStore.Spool.{Row, Spool, spool_gap}
use netlog_ai.Triage.Types.{Config, Candidate, sev_rank}
use netlog_ai.Triage.Sinks.{Answer}
use netlog_ai.Triage.Leader.{lease_name}
use netlog_ai.Triage.Drain.{Drained, drain}
use netlog_ai.Triage.Handle.{Pending, World, Handled, Item, fresh_item, orphan, str_leb}
use netlog_ai.Triage.Handle.Incident.{candidate_of, handle}

-- p["sinks"] after the configuration is looked at
pub current_sinks : List String → Pending → List String
current_sinks names p =
    let left = keep (λ n. any (str_eq n) names) p.sinks in
    elim left [ [] ↦ if p.nowhere then sort str_leb names else [] | n ∷ ns ↦ n ∷ ns ]

-- a pending row that is still to be delivered; `none` for one that is deleted
pub still_due : Config → List String → ℕ → Pending → Option Pending
still_due cfg names now p =
    let left = current_sinks names p in
    elim left [
      | [] ↦ none
      | n ∷ ns ↦
          if ltb (p.since + cfg.pending_ttl_s) now then none else some (record p { sinks = n ∷ ns })
    ]

-- the rows of `triage_pending` that go on
pub due_rows : Config → List String → ℕ → Dict Pending → Dict Pending
due_rows cfg names now [] = []
due_rows cfg names now ((fp, p) ∷ l) =
    let rest = due_rows cfg names now l in
    elim (still_due cfg names now p) [ none ↦ rest | some q ↦ (fp, q) ∷ rest ]

-- the rows that stay in the table
pub kept_rows : Config → List String → ℕ → Dict Pending → Dict Pending
kept_rows cfg names now [] = []
kept_rows cfg names now ((fp, p) ∷ l) =
    let rest = kept_rows cfg names now l in
    elim (still_due cfg names now p) [ none ↦ rest | some q ↦ (fp, p) ∷ rest ]

-- fp in fresh_cands
pub is_fresh : List Candidate → String → Bool
is_fresh fresh fp = any (λ c. str_eq c.fingerprint fp) fresh

pub fresh_items : Dict Pending → List Candidate → List Item
fresh_items pending = map (λ c. fresh_item c (lookup c.fingerprint pending))

pub orphan_items : List Candidate → Dict Pending → List Item
orphan_items fresh [] = []
orphan_items fresh ((fp, p) ∷ l) =
    let rest = orphan_items fresh l in if is_fresh fresh fp then rest else orphan p ∷ rest

-- (SEV_RANK.get(severity, 5), fingerprint)
pub item_leb : Item → Item → Bool
item_leb a b =
    let x = sev_rank (candidate_of a).severity in
    let y = sev_rank (candidate_of b).severity in
    ltb x y || (x == y && str_leb (candidate_of a).fingerprint (candidate_of b).fingerprint)

pub items : List Candidate → Dict Pending → List Item
items fresh pending = sort item_leb (fresh_items pending fresh ++ orphan_items fresh pending)

-- What the handling of an incident meets; each function takes the incident's fingerprint.
pub record Env : Type 0 where
  pub owner : String
  pub sinks : List String
  pub rand : String → ℕ
  -- `_still_leader` before the incident, and before each of its sinks
  pub leads : String → Bool
  pub leads_at : String → String → Bool
  pub upsert : String → String → Option Answer
  pub put_at : String → ℕ
  pub leases : String → Leases

pub handle_one : Config → Env → ℕ → Item → World → Handled
handle_one cfg env now item w =
    let fp = (candidate_of item).fingerprint in
    handle cfg env.owner env.sinks (env.rand fp) (env.leads_at fp) (env.upsert fp) (env.put_at fp)
      (env.leases fp) now item w

-- the loop over the items; `lost` ends it
pub handle_all : Config → Env → ℕ → List Item → World → Handled
handle_all cfg env now [] w = record { world = w; lost = false }
handle_all cfg env now (i ∷ is) w =
    let first = handle_one cfg env now i w in
    let rest = handle_all cfg env now is first.world in
    if env.leads (candidate_of i).fingerprint
    then (if first.lost then first else rest)
    else record { world = w; lost = true }

-- What the worker knows while it leads: read positions that are not yet committed.
pub record Position : Type 0 where
  pub cursors : Dict ℕ
  pub gaps : Dict ℕ
  pub warmed : List String
  pub state_loaded : Bool

-- what the namespace `triage` of the database holds
pub record Saved : Type 0 where
  pub cursors : Dict ℕ
  pub gaps : Dict ℕ

abbrev pub nowhere_yet : Position
nowhere_yet = record { cursors = []; gaps = []; warmed = []; state_loaded = false }

abbrev pub or_zero : Option ℕ → ℕ
or_zero none = 0
or_zero (some n) = n

-- self._cursor_pending.get(source, int(state.get("cursor:…", 0)))
pub cursor_of : String → Position → Saved → ℕ
cursor_of src pos saved = elim (lookup src pos.cursors) [
  | none ↦ or_zero (lookup src saved.cursors)
  | some n ↦ n
]

pub gap_seen : String → Position → Saved → ℕ
gap_seen src pos saved = elim (lookup src pos.gaps) [
  | none ↦ or_zero (lookup src saved.gaps)
  | some n ↦ n
]

-- the gap of a source: the rows newly lost, and the position
pub note_gap : String → Spool → Position → Saved → ℕ × Position
note_gap src spool pos saved =
    let lost = (spool_gap src spool).1 in
    let seen = gap_seen src pos saved in
    if ltb seen lost
    then (lost - seen, record pos { gaps = insert src lost pos.gaps })
    else (0, pos)

-- self._cursor_pending[source] = cursor, after a batch that is not empty
pub moved : String → List Row → ℕ → Position → Position
moved src [] cursor pos = pos
moved src (r ∷ rs) cursor pos = record pos { cursors = insert src cursor pos.cursors }

-- the batches of a source: the rows for `_process`, and the position
pub ingest_source : ℕ → (ℕ → Bool) → ℕ → String → Spool → Saved → Position → Drained × Position
ingest_source fuel time_up batch src spool saved pos =
    let d = drain fuel time_up src batch (cursor_of src pos saved) spool in
    (d, moved src d.rows d.cursor pos)

-- The loop over the sources: all rows for `_process`, in the order they are read, and the position. Each
-- source has its own answers of the clock against the deadline, which is one for the tick, so that it may
-- pass at any batch of any source; and its own spool, the one that the loop finds when it comes to it.
pub ingest_all :
    ℕ
    → (String → ℕ → Bool)
    → ℕ
    → List String
    → (String → Spool)
    → Saved
    → Position
    → List Row × Position
ingest_all fuel time_up batch [] spools saved pos = ([], pos)
ingest_all fuel time_up batch (src ∷ srcs) spools saved pos =
    let (d, pos') =
      ingest_source fuel (time_up src) batch src (spools src) saved
        (note_gap src (spools src) pos saved).1 in
    let (rows, pos'') = ingest_all fuel time_up batch srcs spools saved pos' in
    (d.rows ++ rows, pos'')

-- kv_set for each item
pub write_all : Dict ℕ → Dict ℕ → Dict ℕ
write_all [] saved = saved
write_all ((src, n) ∷ l) saved = write_all l (insert src n saved)

-- `_commit`
pub commit : Position → Saved → Position × Saved
commit pos saved = (
  record pos { cursors = []; gaps = [] },
  record { cursors = write_all pos.cursors saved.cursors; gaps = write_all pos.gaps saved.gaps },
)

pub data Role : Type 0 where
  standby leading : Role

-- what `run_once` leaves
pub record Tick : Type 0 where
  pub role : Role
  pub aborted : Bool
  pub position : Position
  pub saved : Saved
  pub leases : Leases
  pub world : World

-- the end of a tick: the positions are written, or the lease was lost and they are forgotten
pub finish : Position → Saved → Leases → Handled → Tick
finish pos saved leases h =
    let (pos', saved') = commit pos saved in
    if h.lost
    then record {
      role = standby;
      aborted = true;
      position = nowhere_yet;
      saved = saved;
      leases = leases;
      world = h.world;
    }
    else record {
      role = leading;
      aborted = false;
      position = pos';
      saved = saved';
      leases = leases;
      world = h.world;
    }

-- `_run_active` after `_ingest`, which has moved the position
pub run_active : Config → Env → ℕ → List Candidate → Position → Saved → Leases → World → Tick
run_active cfg env now fresh pos saved leases w =
    let due = due_rows cfg env.sinks now w.pending in
    finish pos saved leases (
      handle_all cfg env now (items fresh due)
        (record w { pending = kept_rows cfg env.sinks now w.pending }))

-- `ingest` is `_ingest` with the merge of the candidates that it makes: the new position and the candidates
pub run_once :
    (Position → List Candidate × Position)
    → Config
    → Env
    → ℕ
    → Position
    → Saved
    → Leases
    → World
    → Tick
run_once ingest cfg env now pos saved leases w =
    let (ok, leases') = lease_acquire lease_name env.owner cfg.lease_ttl_s now leases in
    let (fresh, pos') = ingest (record pos { state_loaded = true }) in
    if ok then run_active cfg env now fresh pos' saved leases' w else record {
      role = standby;
      aborted = false;
      position = nowhere_yet;
      saved = saved;
      leases = leases';
      world = w;
    }
