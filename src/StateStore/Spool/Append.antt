-- ===== src/StateStore/Spool/Append.antt =====
-- `spool_append`: what one batch does to the rows, the counters and the consumer's backlog.
use netlog_ai.Prelude.{
  ℕ, ◌+◌, String, ◌≡◌, ◌≢◌, ◌∙◌, ap, Bool, some, List, ◌∷◌, ◌++◌, arith, leb, length, length-append,
  keep-append, Ascends-append, append-nil, inl, inr, Bool-cases, lookup, lookup-insert_self,
  lookup-insert_ne, Option-cases, ◌||◌, if◌then◌else◌,
}
use netlog_ai.StateStore.Spool.{
  Meta, Row, Line, Spool, of_source, newest, insert_rows, or_else, meta_of, ensure_meta, set_rows,
  add_lines, maybe_prune, spool_append, spool_prune,
}
use netlog_ai.StateStore.Spool.Order.{
  Between, insert_rows-Between, length-insert_rows, of_source-insert_rows, of_source-insert_rows_ne,
}
use netlog_ai.StateStore.Spool.Prune.{Pruned, Pruned-refl, backlog, spool_prune_lem}

-- the test by which `spool_append` prunes
abbrev pub due : ℕ → ℕ → Bool
due pending cap = leb 1000 pending || leb cap pending

-- What the end of a batch leaves, where `s` already holds the new rows.
pub record Settled (src : String) (pending cap : ℕ) (s t : Spool) : Type 0 where
  pub mine :
      of_source src t.table
      ≡ (if due pending cap then newest cap (of_source src s.table) else of_source src s.table)
  pub others : (o : String) → o ≢ src → of_source o t.table ≡ of_source o s.table
  pub ordered : Between 0 t.next_id t.table
  pub next_id : t.next_id ≡ s.next_id
  pub cursors : t.cursors ≡ s.cursors
  pub meta : lookup src t.counts ≡ some (meta_of src t)
  pub metas : (o : String) → o ≢ src → lookup o t.counts ≡ lookup o s.counts
  pub counted : (meta_of src t).rows ≡ length (of_source src t.table)
  pub removed :
      (meta_of src t).pruned + length (of_source src t.table)
      ≡ (meta_of src s).pruned + length (of_source src s.table)
  pub lost :
      (meta_of src t).lost_unread + backlog (lookup src s.cursors) (of_source src t.table)
      ≡ (meta_of src s).lost_unread + backlog (lookup src s.cursors) (of_source src s.table)
  pub counter : lookup src t.prune_counter ≡ some (if due pending cap then 0 else pending)
  pub counters : (o : String) → o ≢ src → lookup o t.prune_counter ≡ lookup o s.prune_counter

module _ (src : String) (pending cap : ℕ) (s : Spool) where
  set_rows-Settled :
      (total : ℕ) (t : Spool) (n : ℕ) (left : List Row)
      → left
        ≡ (if due pending cap then newest cap (of_source src s.table) else of_source src s.table)
      → n ≡ (if due pending cap then 0 else pending)
      → Pruned src s t left
      → total ≡ length left
      → Settled src pending cap s (set_rows src n total t)
  unfolding set_rows
  set_rows-Settled total t n left e f p c = record {
    mine = p.mine ∙ e;
    others = p.others;
    ordered = p.ordered;
    next_id = p.next_id;
    cursors = p.cursors;
    meta = rw lookup-insert_self;
    metas = λ o ne. lookup-insert_ne src o _ t.counts ne ∙ p.metas o ne;
    counted = rw (lookup-insert_self, p.mine) c;
    removed = rw (lookup-insert_self, p.mine) p.removed;
    lost = rw (lookup-insert_self, p.mine) p.lost;
    counter = rw lookup-insert_self (ap some f);
    counters = λ o ne. lookup-insert_ne src o _ t.prune_counter ne ∙ ap (lookup o) p.counter;
  }

  pub maybe_prune-Settled :
      (total : ℕ)
      → Between 0 s.next_id s.table
      → total ≡ length (of_source src s.table)
      → Settled src pending cap s (maybe_prune src pending total cap s)
  unfolding maybe_prune
  maybe_prune-Settled total ordered e = elim (Bool-cases (due pending cap)) [
    | inl now ↦
        let (p, c) = spool_prune_lem src s ordered total cap e in
        let mine = of_source src s.table in
        rw now (
          set_rows-Settled (spool_prune src total cap s).0 (spool_prune src total cap s).1 0
            (newest cap mine) (rw now) (rw now) p c)
    | inr later ↦ rw later (
        set_rows-Settled total s pending (of_source src s.table) (rw later) (rw later)
          (Pruned-refl src s ordered) e)
  ]

-- the rows of the source once the batch is in
abbrev pub stored : String → List Line → Spool → List Row
stored src lines s = of_source src s.table ++ insert_rows src s.next_id lines

-- the number that the prune counter reaches with a batch
abbrev pub pending_of : String → List Line → Spool → ℕ
pending_of src lines s = or_else 0 (lookup src s.prune_counter) + length lines

-- the row of `spool_meta` counts the rows of its source
abbrev pub IsAccurate : String → Spool → Type 0
IsAccurate src s =
    (m : Meta) → lookup src s.counts ≡ some m → m.rows ≡ length (of_source src s.table)

-- What `spool_append` leaves of a spool that holds the batch already.
module _ (src : String) (lines : List Line) (s : Spool) where
  abbrev pub loaded : Spool
  loaded = add_lines src lines (ensure_meta src s).1

  ensure_meta-count : IsAccurate src s → (ensure_meta src s).0 ≡ length (of_source src s.table)
  unfolding ensure_meta
  ensure_meta-count acc = elim (Option-cases (lookup src s.counts)) [
    | inl e ↦ rw (e, ensure_meta)
    | inr (m, e) ↦ rw (e, ensure_meta) (acc m e)
  ]

  ensure_meta-keeps :
      ((ensure_meta src s).1.table ≡ s.table)
      × ((ensure_meta src s).1.next_id ≡ s.next_id)
      × ((ensure_meta src s).1.prune_counter ≡ s.prune_counter)
      × ((ensure_meta src s).1.cursors ≡ s.cursors)
      × ((meta_of src (ensure_meta src s).1).pruned ≡ (meta_of src s).pruned)
      × ((meta_of src (ensure_meta src s).1).lost_unread ≡ (meta_of src s).lost_unread)
  unfolding ensure_meta
  ensure_meta-keeps = ground (
    arith,
    lookup-insert_self src
        (record { rows = length (of_source src s.table); pruned = 0; lost_unread = 0 }) s.counts,
  )

  ensure_meta-metas :
      (o : String) → o ≢ src → lookup o (ensure_meta src s).1.counts ≡ lookup o s.counts
  unfolding ensure_meta
  ensure_meta-metas o ne = elim (Option-cases (lookup src s.counts)) [
    | inl e ↦ rw (e, ensure_meta) (lookup-insert_ne src o _ s.counts ne)
    | inr (m, e) ↦ rw (e, ensure_meta)
  ]

  pub of_source-loaded : of_source src loaded.table ≡ stored src lines s
  unfolding add_lines
  of_source-loaded =
      rw (ensure_meta-keeps.0, ensure_meta-keeps.1, keep-append, of_source-insert_rows)

  pub of_source-loaded_ne : (o : String) → o ≢ src → of_source o loaded.table ≡ of_source o s.table
  unfolding add_lines
  of_source-loaded_ne o ne =
      rw (ensure_meta-keeps.0, ensure_meta-keeps.1, keep-append)
        (rw (of_source-insert_rows_ne src o s.next_id lines ne) (append-nil _))

  loaded-Between : Between 0 s.next_id s.table → Between 0 loaded.next_id loaded.table
  unfolding add_lines
  loaded-Between h =
      rw (ensure_meta-keeps.0, ensure_meta-keeps.1)
        (Ascends-append (λ r. r.id) 0 s.next_id (s.next_id + length lines) s.table
          (insert_rows src s.next_id lines) h (insert_rows-Between src s.next_id lines))

  pub loaded-keeps :
      ((meta_of src loaded).pruned ≡ (meta_of src s).pruned)
      × ((meta_of src loaded).lost_unread ≡ (meta_of src s).lost_unread)
      × (loaded.cursors ≡ s.cursors)
      × (loaded.prune_counter ≡ s.prune_counter)
      × ((o : String) → o ≢ src → lookup o loaded.counts ≡ lookup o s.counts)
  unfolding add_lines
  loaded-keeps =
      let (_, _, counters, cursors, pruned, lost) = ensure_meta-keeps in
      (pruned, lost, cursors, counters, ensure_meta-metas)

module _ (src : String) (l : Line) (ls : List Line) (cap : ℕ) (s : Spool) where
  abbrev lines : List Line
  lines = l ∷ ls

  -- One batch, on the spool that holds it: the proofs below read their fields off this.
  pub spool_append-Settled :
      Between 0 s.next_id s.table
      → IsAccurate src s
      → Settled src
          (pending_of src lines s)
          cap
          (loaded src lines s)
          (spool_append src lines cap s).1
  unfolding spool_append
  spool_append-Settled ordered acc =
      maybe_prune-Settled src (pending_of src lines s) cap (loaded src lines s)
        ((ensure_meta src s).0 + length lines) (loaded-Between src lines s ordered)
        (rw (
          of_source-loaded src lines s,
          length-append,
          length-insert_rows,
          ensure_meta-count src lines s acc,
        ))
