-- ===== src/StateStore/Spool/Invariant.antt =====
-- What holds of the spool after any batches, and what one batch does to it.
use netlog_ai.Prelude.{
  ℕ, ◌+◌, ◌-◌, ◌≤◌, ◌<◌, String, ◌≡◌, ◌≢◌, refl, sym, ◌∙◌, ap, List, [], ◌∷◌, arith, length,
  length-append, length-drop, inl, inr, Bool-cases, lookup, by_key, if◌then◌else◌,
}
use netlog_ai.StateStore.Spool.{
  Line, Spool, of_source, newest, or_else, insert_rows, meta_of, spool_append,
}
use netlog_ai.StateStore.Spool.Order.{Between, length-insert_rows}
use netlog_ai.StateStore.Spool.Prune.{backlog}
use netlog_ai.StateStore.Spool.Append.{
  due, stored, pending_of, loaded, IsAccurate, Settled, spool_append-Settled, loaded-keeps,
  of_source-loaded, of_source-loaded_ne,
}

-- the rows that a prune may still be waiting to remove
abbrev pub slack : String → Spool → ℕ
slack src s = or_else 0 (lookup src s.prune_counter)

-- Ids ascend; every count is exact; no source is past its cap by more than its prune counter,
-- which stays below 1000.
pub record IsValid (cap : ℕ) (s : Spool) : Type 0 where
  pub ordered : Between 0 s.next_id s.table
  pub accurate : (src : String) → IsAccurate src s
  pub bounded : (src : String) → length (of_source src s.table) ≤ cap + slack src s
  pub small : (src : String) → slack src s < 1000

module _ (src : String) (l : Line) (ls : List Line) (cap : ℕ) (s : Spool)
    (ordered : Between 0 s.next_id s.table) (acc : IsAccurate src s) where
  abbrev lines : List Line
  lines = l ∷ ls

  abbrev now : Spool
  now = (spool_append src lines cap s).1

  settled : Settled src (pending_of src lines s) cap (loaded src lines s) now
  settled = spool_append-Settled src l ls cap s ordered acc

  -- With ids in order and an exact count, a batch leaves its source with the newest `cap` of the old
  -- and new rows if a prune was due, and with all of them if not; no other source changes.
  pub spool_append-window :
      (o : String)
      → o ≢ src
      → (of_source src now.table ≡ (
          if due (pending_of src lines s) cap
          then newest cap (stored src lines s)
          else stored src lines s))
        × (of_source o now.table ≡ of_source o s.table)
  spool_append-window o ne = (
    rw of_source-loaded at settled.mine,
    settled.others o ne ∙ of_source-loaded_ne src lines s o ne,
  )

  -- With ids in order and an exact count, the counters of the source account for every line: rows in
  -- the table and rows pruned grow together by the length of the batch, and `rows` is exact again.
  pub spool_append-accounts :
      ((meta_of src now).pruned + length (of_source src now.table)
        ≡ (meta_of src s).pruned + length (of_source src s.table) + length lines)
      × ((meta_of src now).rows ≡ length (of_source src now.table))
  spool_append-accounts = (
    omega (
      arith,
      settled.removed,
      (loaded-keeps src lines s).0,
      ap length (of_source-loaded src lines s),
      length-append (of_source src s.table) (insert_rows src s.next_id lines),
      length-insert_rows src s.next_id lines,
    ),
    settled.counted,
  )

  -- With ids in order and an exact count, no unread line is lost in silence: of the rows past the
  -- consumer's cursor, the old and the new, those that are gone are added to `lost_unread`.
  pub spool_append-backlog :
      (meta_of src now).lost_unread + backlog (lookup src s.cursors) (of_source src now.table)
      ≡ (meta_of src s).lost_unread + backlog (lookup src s.cursors) (stored src lines s)
  spool_append-backlog =
      let (_, lost, cursors, _, _) = loaded-keeps src lines s in
      rw (lost, cursors, of_source-loaded) at settled.lost

Settled-small :
    (src : String) (pending cap : ℕ) (s t : Spool)
    → Settled src pending cap s t
    → (slack src t ≡ (if due pending cap then 0 else pending)) × (slack src t < 1000)
Settled-small src pending cap s t h = rw h.counter (refl, ground arith)

Settled-bounded :
    (src : String) (pending cap : ℕ) (s t : Spool)
    → Settled src pending cap s t
    → length (of_source src s.table) ≤ cap + pending
    → length (of_source src t.table) ≤ cap + slack src t
Settled-bounded src pending cap s t h fits = elim (Bool-cases (due pending cap)) [
  | inl now ↦
      rw (h.counter, h.mine, now)
        (omega (arith, length-drop (length (of_source src s.table) - cap) (of_source src s.table)))
  | inr later ↦ rw (h.counter, h.mine, later) fits
]

module _ (cap : ℕ) (src : String) (s : Spool) (v : IsValid cap s) where
  module _ (l : Line) (ls : List Line) where
    abbrev lines' : List Line
    lines' = l ∷ ls

    abbrev next : Spool
    next = (spool_append src lines' cap s).1

    abbrev pending : ℕ
    pending = pending_of src lines' s

    h : Settled src pending cap (loaded src lines' s) next
    h = spool_append-Settled src l ls cap s v.ordered (v.accurate src)

    rows_of_other : (o : String) → o ≢ src → of_source o next.table ≡ of_source o s.table
    rows_of_other o ne = h.others o ne ∙ of_source-loaded_ne src lines' s o ne

    meta_of_other : (o : String) → o ≢ src → lookup o next.counts ≡ lookup o s.counts
    meta_of_other o ne = h.metas o ne ∙ (loaded-keeps src lines' s).4 o ne

    slack_of_other : (o : String) → o ≢ src → slack o next ≡ slack o s
    slack_of_other o ne =
        ap (or_else 0) (h.counters o ne ∙ ap (lookup o) (loaded-keeps src lines' s).3)

    fits_with_batch : length (of_source src (loaded src lines' s).table) ≤ cap + pending
    fits_with_batch = rw of_source-loaded (
        omega (
          arith,
          v.bounded src,
          length-append (of_source src s.table) (insert_rows src s.next_id lines'),
          length-insert_rows src s.next_id lines',
        ))

    batch-IsValid : IsValid cap next
    batch-IsValid = record {
      ordered = h.ordered;
      accurate =
          by_key (λ o. IsAccurate o next) src (λ m e. ground (arith, h.meta, h.counted))
            (λ o ne m e. rw (rows_of_other o ne) (v.accurate o m (sym (meta_of_other o ne) ∙ e)));
      bounded =
          by_key (λ o. length (of_source o next.table) ≤ cap + slack o next) src
            (Settled-bounded src pending cap (loaded src lines' s) next h fits_with_batch)
            (λ o ne. rw (rows_of_other o ne, slack_of_other o ne) (v.bounded o));
      small =
          by_key (λ o. slack o next < 1000) src
            (Settled-small src pending cap (loaded src lines' s) next h).1
            (λ o ne. rw (slack_of_other o ne) (v.small o));
    }

  -- Appending any batch, for any source, to a valid spool leaves a valid spool.
  pub spool_append-IsValid : (lines : List Line) → IsValid cap (spool_append src lines cap s).1
  spool_append-IsValid [] = unfold spool_append in v
  spool_append-IsValid (l ∷ ls) = batch-IsValid l ls
