-- ===== src/StateStore/Spool/Read.antt =====
-- Reading the spool in batches from a cursor (`spool_read`), as the triage worker does.
use netlog_ai.Prelude.{
  ℕ, ◌≤◌, String, ◌≡◌, ◌∙◌, ap, sym, some, List, ◌++◌, arith, take, last?, Ascends-keep,
  take-above_last, above-above, last?-above,
}
use netlog_ai.StateStore.Spool.{Row, Spool, of_source, after, spool_read}
use netlog_ai.StateStore.Spool.Order.{Between}

-- With ids in order, a batch read from a cursor, followed by what lies past its last id, is all that
-- lies past the cursor: going on from that id skips no row and reads none twice.
pub spool_read-continues :
    (src : String) (cursor limit : ℕ) (s : Spool) (r : Row)
    → Between 0 s.next_id s.table
    → last? (spool_read src cursor limit s) ≡ some r
    → spool_read src cursor limit s ++ after r.id (of_source src s.table)
      ≡ after cursor (of_source src s.table)
unfolding spool_read
spool_read-continues src cursor limit s r ordered h =
    ap (λ l. take limit (after cursor mine) ++ l)
      (sym (above-above (λ r. r.id) cursor r.id mine before))
    ∙ take-above_last (λ r. r.id) 0 s.next_id limit (after cursor mine) r
        (Ascends-keep (λ r. r.id) _ 0 s.next_id mine
          (Ascends-keep (λ r. r.id) _ 0 s.next_id s.table ordered))
        h
  where
    mine : List Row
    mine = of_source src s.table

    before : cursor ≤ r.id
    before = omega (arith, last?-above (λ (r : Row). r.id) cursor limit mine r h)
