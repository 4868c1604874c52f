-- ===== src/StateStore/Spool.antt =====
-- The syslog spool of state_store.py: the tables `syslog_spool` and `spool_meta`, the per-process
-- prune counters, and the operations of `StateDB` on them. Rows stand in the order of their ids, so
-- `ORDER BY id` is the list's own order; `ids` are handed out by AUTOINCREMENT from `next_id`.
-- Times are numbers of clock ticks. A `write()` block is one step, as BEGIN IMMEDIATE makes it.
pub mod Order
pub mod Prune
pub mod Append
pub mod Invariant
pub mod Read
use netlog_ai.Prelude.{
  ℕ, suc, ◌+◌, ◌-◌, String, ◌&&◌, Option, none, some, List, [], ◌∷◌, ◌++◌, ltb, leb, str_eq,
  if◌then◌else◌, length, get_elem?, take, drop, last?, keep, Dict, lookup, insert, ◌||◌,
}

pub record Row : Type 0 where
  pub id : ℕ
  pub source : String
  pub received_at : ℕ
  pub sender : String
  pub line : String

-- a row of `spool_meta`
pub record Meta : Type 0 where
  pub rows : ℕ
  pub pruned : ℕ
  pub lost_unread : ℕ

pub record Spool : Type 0 where
  pub table : List Row
  pub next_id : ℕ
  pub counts : Dict Meta
  pub prune_counter : Dict ℕ
  -- the rows `cursor:<source>` of the `triage` namespace; `none` is a value that is no number
  pub cursors : Dict (Option ℕ)

-- a line that is not yet stored: (received_at, sender, line)
pub record Line : Type 0 where
  pub received_at : ℕ
  pub sender : String
  pub line : String

-- WHERE source=?
abbrev pub of_source : String → List Row → List Row
of_source src = keep (λ r. str_eq r.source src)

-- WHERE id>?
abbrev pub after : ℕ → List Row → List Row
after cursor = keep (λ r. ltb cursor r.id)

-- WHERE id<=?
abbrev pub upto : ℕ → List Row → List Row
upto boundary = keep (λ r. leb r.id boundary)

-- the newest `limit` rows of a list, oldest first (ORDER BY id DESC LIMIT ?, then reversed)
abbrev pub newest {ℓ} : {A : Type ℓ} → ℕ → List A → List A
newest limit l = drop (length l - limit) l

-- the executemany of INSERT INTO syslog_spool
pub insert_rows : String → ℕ → List Line → List Row
insert_rows src id [] = []
insert_rows src id (l ∷ ls) =
    record { id = id; source = src; received_at = l.received_at; sender = l.sender; line = l.line }
    ∷ insert_rows src (suc id) ls

-- DELETE FROM syslog_spool WHERE source=? AND id<=?
pub delete_upto : String → ℕ → List Row → List Row
delete_upto src boundary [] = []
delete_upto src boundary (r ∷ rs) =
    let rest = delete_upto src boundary rs in
    if str_eq r.source src && leb r.id boundary then rest else r ∷ rest

-- rows of the source in (cursor, boundary]; no cursor row, or one that is unreadable, counts none
pub unread : Option (Option ℕ) → ℕ → List Row → ℕ
unread none boundary mine = 0
unread (some none) boundary mine = 0
unread (some (some cursor)) boundary mine =
    if ltb cursor boundary then length (after cursor (upto boundary mine)) else 0

abbrev pub no_meta : Meta
no_meta = record { rows = 0; pruned = 0; lost_unread = 0 }

abbrev pub or_else {ℓ} : {A : Type ℓ} → A → Option A → A
or_else d none = d
or_else d (some a) = a

-- spool_meta of a source, 0 where there is no row (`spool_gap`)
abbrev pub meta_of : String → Spool → Meta
meta_of src s = or_else no_meta (lookup src s.counts)

pub prune_at : String → ℕ → ℕ → Spool → ℕ × Spool
prune_at src total boundary s =
    let mine = of_source src s.table in
    let left = delete_upto src boundary s.table in
    let removed = length s.table - length left in
    let lost = unread (lookup src s.cursors) boundary mine in
    let m = meta_of src s in
    (
      total - removed,
      record s {
        table = left;
        counts =
            insert src
              (record m { pruned = m.pruned + removed; lost_unread = m.lost_unread + lost })
              s.counts;
      },
    )

-- the recount when the counter had drifted above the real count
pub recount : String → ℕ → Spool → ℕ × Spool
recount src cap s =
    let mine = of_source src s.table in
    let total = length mine in
    if leb total cap then (total, s) else elim (get_elem? mine (total - cap - 1)) [
      | none ↦ (total, s)
      | some r ↦ prune_at src total r.id s
    ]

-- `_spool_prune`: the new row count and the state
pub spool_prune : String → ℕ → ℕ → Spool → ℕ × Spool
spool_prune src total cap s =
    if leb total cap
    then (total, s)
    else elim (get_elem? (of_source src s.table) (total - cap - 1)) [
      | none ↦ recount src cap s
      | some r ↦ prune_at src total r.id s
    ]

-- the `meta is None` branch: count once and insert the row
pub ensure_meta : String → Spool → ℕ × Spool
ensure_meta src s = elim (lookup src s.counts) [
  | none ↦
      let total = length (of_source src s.table) in
      (
        total,
        record s {
          counts = insert src (record { rows = total; pruned = 0; lost_unread = 0 }) s.counts;
        },
      )
  | some m ↦ (m.rows, s)
]

-- the end of the transaction: the counter, and UPDATE spool_meta SET rows
pub set_rows : String → ℕ → ℕ → Spool → Spool
set_rows src pending total s = record s {
  prune_counter = insert src pending s.prune_counter;
  counts = insert src (record (meta_of src s) { rows = total }) s.counts;
}

-- the INSERT of the new lines
pub add_lines : String → List Line → Spool → Spool
add_lines src lines s = record s {
  table = s.table ++ insert_rows src s.next_id lines;
  next_id = s.next_id + length lines;
}

-- the prune step: at most every ~1000 rows
pub maybe_prune : String → ℕ → ℕ → ℕ → Spool → Spool
maybe_prune src pending total cap s =
    if leb 1000 pending || leb cap pending
    then (let (total', s') = spool_prune src total cap s in set_rows src 0 total' s')
    else set_rows src pending total s

pub spool_append : String → List Line → ℕ → Spool → ℕ × Spool
spool_append src [] cap s = (0, s)
spool_append src (l ∷ ls) cap s =
    let lines = l ∷ ls in
    let (total, s1) = ensure_meta src s in
    let s2 = add_lines src lines s1 in
    let pending = or_else 0 (lookup src s.prune_counter) + length lines in
    (length lines, maybe_prune src pending (total + length lines) cap s2)

-- reads
unfoldable pub spool_tail : String → ℕ → Spool → List Row
spool_tail src limit s = newest limit (of_source src s.table)

unfoldable pub spool_after : String → ℕ → ℕ → Spool → List Row
spool_after src after_id limit s = newest limit (after after_id (of_source src s.table))

unfoldable pub spool_read : String → ℕ → ℕ → Spool → List Row
spool_read src after_id limit s = take limit (after after_id (of_source src s.table))

unfoldable pub spool_before : String → ℕ → ℕ → Spool → List Row
spool_before src upto_id limit s = newest limit (upto upto_id (of_source src s.table))

unfoldable pub spool_last_received : String → Spool → ℕ
spool_last_received src s = elim (last? (of_source src s.table)) [
  | none ↦ 0
  | some r ↦ r.received_at
]

unfoldable pub spool_max_id : String → Spool → ℕ
spool_max_id src s = elim (last? (of_source src s.table)) [ none ↦ 0 | some r ↦ r.id ]

unfoldable pub spool_min_id : String → Spool → ℕ
spool_min_id src s = elim (of_source src s.table) [ [] ↦ 0 | r ∷ _ ↦ r.id ]

-- SELECT source FROM spool_meta WHERE rows > 0 (the sort by name is left out)
unfoldable pub spool_gap : String → Spool → ℕ × ℕ
spool_gap src s = ((meta_of src s).pruned, (meta_of src s).lost_unread)
