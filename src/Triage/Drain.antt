-- ===== src/Triage/Drain.antt =====
-- The inner loop of `_ingest`: batches are read from the cursor until one is short, or time is up.
use netlog_ai.Prelude.{
  ℕ, zero, suc, ◌<◌, String, ◌≡◌, refl, sym, ◌∙◌, ap, Bool, true, false, none, some, List, [], ◌∷◌,
  ◌++◌, append_assoc, arith, ltb, min, ◌⊎◌, if◌then◌else◌, length, length-append, last?, inl, inr,
  Bool-cases, Option-cases, length-take,
}
use netlog_ai.StateStore.Spool.{Row, Spool, of_source, after, spool_read}
use netlog_ai.StateStore.Spool.Order.{Between}
use netlog_ai.StateStore.Spool.Read.{spool_read-continues}

-- the rows handed to `_process`, the new cursor, and whether a backlog may remain
pub record Drained : Type 0 where
  pub rows : List Row
  pub cursor : ℕ
  pub backlog : Bool

-- what one batch leads to: `time_up` is the clock test after the batch
unfoldable pub step : ℕ → Bool → List Row → Row → Drained → Drained
step batch time_up rows final rest =
    if ltb (length rows) batch
    then record { rows = rows; cursor = final.id; backlog = false }
    else if time_up
    then record { rows = rows; cursor = final.id; backlog = true }
    else record rest { rows = rows ++ rest.rows }

-- The loop on fuel. Every round but the last reads at least one row, so one more than the number of
-- unread rows is enough.
unfoldable pub drain : ℕ → (ℕ → Bool) → String → ℕ → ℕ → Spool → Drained
drain zero time_up src batch cursor s = record { rows = []; cursor = cursor; backlog = true }
drain (suc fuel) time_up src batch cursor s =
    let rows = spool_read src cursor batch s in
    elim (last? rows) [
      | none ↦ record { rows = []; cursor = cursor; backlog = false }
      | some r ↦ step batch (time_up fuel) rows r (drain fuel time_up src batch r.id s)
    ]

module _ (time_up : ℕ → Bool) (src : String) (batch : ℕ) (s : Spool)
    (ordered : Between 0 s.next_id s.table) (positive : 0 < batch) where
  abbrev unread : ℕ → List Row
  unread cursor = after cursor (of_source src s.table)

  -- what a loop from a cursor has to give: a prefix of the unread rows, and without a backlog all of them
  record Reads (cursor : ℕ) (d : Drained) : Type 0 where
    prefix : d.rows ++ unread d.cursor ≡ unread cursor
    complete : d.backlog ≡ false → unread d.cursor ≡ []

  last?-none : (l : List Row) → last? l ≡ none → l ≡ []
  last?-none [] h = refl
  last?-none (x ∷ []) h = absurd (ground arith)
  last?-none (x ∷ y ∷ l) h = absurd (ground (arith, ap length (last?-none (y ∷ l) h)))

  empty_of_length : (l : List Row) → length l ≡ 0 → l ≡ []
  empty_of_length [] h = refl
  empty_of_length (x ∷ l) h = absurd (omega arith)

  batch_length :
      (cursor : ℕ) → length (spool_read src cursor batch s) ≡ min batch (length (unread cursor))
  unfolding spool_read
  batch_length cursor = length-take batch (unread cursor)

  nonempty : (l : List Row) (r : Row) → last? l ≡ some r → 0 < length l
  nonempty [] r h = absurd (ground arith)
  nonempty (x ∷ l) r h = omega arith

  step-Reads :
      (up : Bool) (cursor : ℕ) (r : Row) (rest : Drained)
      → last? (spool_read src cursor batch s) ≡ some r
      → Reads r.id rest
      → Reads cursor (step batch up (spool_read src cursor batch s) r rest)
  unfolding step
  step-Reads up cursor r rest e ih =
      let rows = spool_read src cursor batch s in
      let goes_on = spool_read-continues src cursor batch s r ordered e in
      let lengths = sym (length-append rows (unread r.id)) ∙ ap length goes_on in
      elim (Bool-cases (ltb (length rows) batch)) [
        | inl short ↦ rw short (record {
          prefix = goes_on;
          complete =
              λ _. empty_of_length (unread r.id) (ground (arith, lengths, batch_length cursor));
        })
        | inr full ↦ elim (Bool-cases up) [
          | inl u ↦
              rw (full, u) (record { prefix = goes_on; complete = λ x. absurd (ground arith) })
          | inr u ↦
              rw (full, u)
                (record {
                  prefix =
                      append_assoc rows rest.rows (unread rest.cursor)
                      ∙ ap (λ l. rows ++ l) ih.prefix
                      ∙ goes_on;
                  complete = ih.complete;
                })
        ]
      ]

  drain-Reads :
      (fuel cursor : ℕ)
      → length (unread cursor) < fuel
      → Reads cursor (drain fuel time_up src batch cursor s)
  unfolding drain
  drain-Reads zero cursor h = absurd (omega arith)
  drain-Reads (suc fuel) cursor h = elim (Option-cases (last? (spool_read src cursor batch s))) [
    | inl e ↦
        let none_left = ap length (last?-none (spool_read src cursor batch s) e) in
        rw (e, drain)
          (record {
            prefix = refl;
            complete = λ _.
                empty_of_length (unread cursor) (omega (arith, none_left, batch_length cursor));
          })
    | inr (r, e) ↦
        let rows = spool_read src cursor batch s in
        let lengths =
          sym (length-append rows (unread r.id))
          ∙ ap length (spool_read-continues src cursor batch s r ordered e) in
        let some_read = nonempty rows r e in
        rw (e, drain)
          (step-Reads (time_up fuel) cursor r (drain fuel time_up src batch r.id s) e
            (drain-Reads fuel r.id (omega arith)))
  ]

  -- With ids in order and batches of at least one row, a tick hands on the unread rows of a source in
  -- order from the first, up to its new cursor: those past the new cursor are all that is left. Either it
  -- reports a backlog, or nothing is left, so no row is skipped however many batches it takes.
  pub drain_lem :
      (cursor fuel : ℕ)
      → length (unread cursor) < fuel
      → ((drain fuel time_up src batch cursor s).rows
            ++ unread (drain fuel time_up src batch cursor s).cursor
          ≡ unread cursor)
        × (((drain fuel time_up src batch cursor s).backlog ≡ true)
            ⊎ (unread (drain fuel time_up src batch cursor s).cursor ≡ []))
  drain_lem cursor fuel h =
      let d = drain-Reads fuel cursor h in
      (
        d.prefix,
        elim (Bool-cases (drain fuel time_up src batch cursor s).backlog) [
          | inl e ↦ inl e
          | inr e ↦ inr (d.complete e)
        ],
      )
