-- ===== src/Triage/Tick/Reads.antt =====
-- What a tick reads of the spool, and what the next one starts with.
use mathlib.Core.Bool.{false≢true}
use netlog_ai.Prelude.{
  ℕ, zero, suc, ◌<◌, String, ◌≡◌, ◌≢◌, refl, sym, ◌∙◌, ap, subst, Bool, true, List, [], ◌∷◌, ◌++◌,
  append_assoc, arith, str_eq, ltb, if◌then◌else◌, length, keep-append, take, last?, All,
  All-append, All-keep, length-keep-le, insert, lookup-insert, eq_iff, inl, inr, Bool-cases,
  Option-cases,
}
use netlog_ai.StateStore.Lease.{Leases, lease_acquire}
use netlog_ai.StateStore.Spool.{Row, Spool, of_source, after, spool_read}
use netlog_ai.StateStore.Spool.Order.{Between}
use netlog_ai.Triage.Types.{Config, Candidate}
use netlog_ai.Triage.Handle.{World, Handled}
use netlog_ai.Triage.Leader.{lease_name}
use netlog_ai.Triage.Drain.{drain, drain_lem, step}
use netlog_ai.Triage.Tick.{
  Position, Saved, nowhere_yet, Env, Role, standby, leading, cursor_of, note_gap, moved,
  ingest_source, ingest_all, commit, Tick, finish, run_active, run_once,
}
use netlog_ai.Triage.Tick.Commit.{Distinct, insert-Distinct, cursor_of-commit}

abbrev From : String → List Row → Type 0
From src = All (λ r. str_eq r.source src ≡ true)

-- rows of another source are none of this one
of_source-other :
    (src other : String) (l : List Row) → src ≢ other → From other l → of_source src l ≡ []
of_source-other src other [] ne h = refl
of_source-other src other (r ∷ rs) ne h = ground (
  arith,
  of_source-other src other rs ne h.1,
  h.0,
  ne,
  eq_iff r.source src,
  eq_iff r.source other,
)

of_source-own : (src : String) (l : List Row) → From src l → of_source src l ≡ l
of_source-own src [] h = refl
of_source-own src (r ∷ rs) h = rw (h.0, of_source-own src rs h.1) refl

of_source-From : (src : String) (l : List Row) → From src (of_source src l)
of_source-From src [] = tt
of_source-From src (r ∷ rs) = elim (Bool-cases (str_eq r.source src)) [
  | inl e ↦ rw e (e, of_source-From src rs)
  | inr e ↦ rw e (of_source-From src rs)
]

take-From : (src : String) (n : ℕ) (l : List Row) → From src l → From src (take n l)
take-From src zero l h = tt
take-From src (suc n) [] h = tt
take-From src (suc n) (r ∷ rs) h = (h.0, take-From src n rs h.1)

spool_read-From :
    (src : String) (cursor batch : ℕ) (s : Spool) → From src (spool_read src cursor batch s)
unfolding spool_read
spool_read-From src cursor batch s = take-From src batch (after cursor (of_source src s.table)) (
    All-keep (λ r. str_eq r.source src ≡ true) (λ r. ltb cursor r.id) (of_source src s.table)
      (of_source-From src s.table))

drain-From :
    (fuel : ℕ) (time_up : ℕ → Bool) (src : String) (batch cursor : ℕ) (s : Spool)
    → From src (drain fuel time_up src batch cursor s).rows
unfolding drain step
drain-From zero time_up src batch cursor s = tt
drain-From (suc fuel) time_up src batch cursor s =
    let rows = spool_read src cursor batch s in
    let own = spool_read-From src cursor batch s in
    elim (Option-cases (last? rows)) [
      | inl e ↦ rw (e, drain) tt
      | inr (r, e) ↦ elim (Bool-cases (ltb (length rows) batch)) [
        | inl short ↦ rw (e, drain, short) own
        | inr full ↦ elim (Bool-cases (time_up fuel)) [
          | inl up ↦ rw (e, drain, full, up) own
          | inr up ↦
              rw (e, drain, full, up)
                (All-append (λ x. str_eq x.source src ≡ true) rows
                  (drain fuel time_up src batch r.id s).rows own
                  (drain-From fuel time_up src batch r.id s))
        ]
      ]
    ]

note_gap-cursors :
    (src : String) (spool : Spool) (pos : Position) (saved : Saved)
    → (note_gap src spool pos saved).1.cursors ≡ pos.cursors
unfolding note_gap
note_gap-cursors src spool pos saved = ground arith

cursor_of-cong :
    (src : String) (pos pos' : Position) (saved : Saved)
    → pos'.cursors ≡ pos.cursors
    → cursor_of src pos' saved ≡ cursor_of src pos saved
unfolding cursor_of
cursor_of-cong src pos pos' saved h = ground (arith, h)

module _ (fuel : ℕ) (time_up : String → ℕ → Bool) (batch : ℕ) (s : String → Spool)
    (ordered : (src : String) → Between 0 (s src).next_id (s src).table) (positive : 0 < batch)
    (enough : (src : String) → length (s src).table < fuel) (saved : Saved) where
  abbrev pub left : String → ℕ → List Row
  left src cursor = after cursor (of_source src (s src).table)

  left-fuel : (src : String) (cursor : ℕ) → length (left src cursor) < fuel
  left-fuel src cursor = omega (
    arith,
    enough src,
    length-keep-le (λ r. ltb cursor r.id) (of_source src (s src).table),
    length-keep-le (λ r. str_eq r.source src) (s src).table,
  )

  cursor_of-insert :
      (src own : String) (cursor : ℕ) (pos : Position)
      → cursor_of src (record pos { cursors = insert own cursor pos.cursors }) saved
        ≡ (if str_eq own src then cursor else cursor_of src pos saved)
  unfolding cursor_of
  cursor_of-insert src own cursor pos = ground (arith, lookup-insert own src cursor pos.cursors)

  moved-left :
      (src own : String) (rows : List Row) (cursor : ℕ) (pos : Position)
      → From own rows
      → rows ++ left own cursor ≡ left own (cursor_of own pos saved)
      → of_source src rows ++ left src (cursor_of src (moved own rows cursor pos) saved)
        ≡ left src (cursor_of src pos saved)
  unfolding moved
  moved-left src own [] cursor pos own_rows prefix = refl
  moved-left src own (r ∷ rs) cursor pos own_rows prefix = elim (Bool-cases (str_eq own src)) [
    | inl e ↦
        let here : of_source own (r ∷ rs)
              ++ left own
                  (cursor_of own (record pos { cursors = insert own cursor pos.cursors }) saved)
            ≡ left own (cursor_of own pos saved) =
          rw
            (
              cursor_of-insert own own cursor pos,
              (eq_iff own own).1 refl,
              of_source-own own (r ∷ rs) own_rows,
            )
            prefix in
        subst
          (λ x.
            of_source x (r ∷ rs)
              ++ left x (cursor_of x (record pos { cursors = insert own cursor pos.cursors }) saved)
            ≡ left x (cursor_of x pos saved))
          ((eq_iff own src).0 e) here
    | inr e ↦
        rw
          (
            cursor_of-insert src own cursor pos,
            e,
            of_source-other src own (r ∷ rs) (λ p. false≢true (sym e ∙ (eq_iff own src).1 (sym p)))
                own_rows,
          )
          refl
  ]

  -- one source: what is read and what is left of any source is what was left
  ingest_source-left :
      (src own : String) (pos : Position)
      → of_source src (ingest_source fuel (time_up own) batch own (s own) saved pos).0.rows
          ++ left src
              (cursor_of src (ingest_source fuel (time_up own) batch own (s own) saved pos).1 saved)
        ≡ left src (cursor_of src pos saved)
  unfolding ingest_source
  ingest_source-left src own pos =
      let from = cursor_of own pos saved in
      let d = drain fuel (time_up own) own batch from (s own) in
      moved-left src own d.rows d.cursor pos (drain-From fuel (time_up own) own batch from (s own))
        (drain_lem (time_up own) own batch (s own) (ordered own) positive from fuel
          (left-fuel own from)).0

  moved-Distinct :
      (own : String) (rows : List Row) (cursor : ℕ) (pos : Position)
      → Distinct pos.cursors
      → Distinct (moved own rows cursor pos).cursors
  unfolding moved
  moved-Distinct own [] cursor pos h = h
  moved-Distinct own (r ∷ rs) cursor pos h = insert-Distinct own cursor pos.cursors h

  -- all sources
  ingest_all-left :
      (src : String) (sources : List String) (pos : Position)
      → of_source src (ingest_all fuel time_up batch sources s saved pos).0
          ++ left src (cursor_of src (ingest_all fuel time_up batch sources s saved pos).1 saved)
        ≡ left src (cursor_of src pos saved)
  unfolding ingest_all
  ingest_all-left src [] pos = refl
  ingest_all-left src (own ∷ sources) pos =
      let noted = (note_gap own (s own) pos saved).1 in
      let first = ingest_source fuel (time_up own) batch own (s own) saved noted in
      let rest = ingest_all fuel time_up batch sources s saved first.1 in
      ap (λ l. l ++ left src (cursor_of src rest.1 saved))
        (keep-append (λ r. str_eq r.source src) first.0.rows rest.0)
      ∙ append_assoc (of_source src first.0.rows) (of_source src rest.0)
          (left src (cursor_of src rest.1 saved))
      ∙ ap (λ l. of_source src first.0.rows ++ l) (ingest_all-left src sources first.1)
      ∙ ingest_source-left src own noted
      ∙ ap (left src) (cursor_of-cong src pos noted saved (note_gap-cursors own (s own) pos saved))

  ingest_all-Distinct :
      (sources : List String) (pos : Position)
      → Distinct pos.cursors
      → Distinct (ingest_all fuel time_up batch sources s saved pos).1.cursors
  unfolding ingest_all ingest_source
  ingest_all-Distinct [] pos h = h
  ingest_all-Distinct (own ∷ sources) pos h =
      let noted = (note_gap own (s own) pos saved).1 in
      let d = drain fuel (time_up own) own batch (cursor_of own noted saved) (s own) in
      ingest_all-Distinct sources (ingest_source fuel (time_up own) batch own (s own) saved noted).1
        (moved-Distinct own d.rows d.cursor noted
          (subst Distinct (sym (note_gap-cursors own (s own) pos saved)) h))

  module _ (triage : List Row → List Candidate) (sources : List String) where
    -- `_ingest`, with what becomes of its rows
    abbrev pub ingest : Position → List Candidate × Position
    ingest pos =
        let (rows, pos') = ingest_all fuel time_up batch sources s saved pos in (triage rows, pos')

    -- the rows that a tick reads
    abbrev pub read_by : Position → List Row
    read_by pos =
        (ingest_all fuel time_up batch sources s saved (record pos { state_loaded = true })).0

    -- those that count: of a tick that still leads at its end
    abbrev pub counted : List Row → Role → List Row
    counted rows standby = []
    counted rows leading = rows

    -- what a source is read from by the next tick
    abbrev pub next : String → Tick → ℕ
    next src t = cursor_of src t.position t.saved

    finish-reads :
        (src : String) (rows : List Row) (pos : Position) (leases : Leases) (h : Handled)
        (start : ℕ)
        → Distinct pos.cursors
        → of_source src rows ++ left src (cursor_of src pos saved) ≡ left src start
        → cursor_of src nowhere_yet saved ≡ start
        → (of_source src (counted rows (finish pos saved leases h).role)
              ++ left src (next src (finish pos saved leases h))
            ≡ left src start)
          × ((finish pos saved leases h).position.cursors ≡ [])
    unfolding finish
    finish-reads src rows pos leases h start distinct prefix again = elim (Bool-cases h.lost) [
      | inl e ↦ rw e (ap (left src) again, refl)
      | inr e ↦ rw e (rw (cursor_of-commit src pos saved distinct) prefix, unfold commit in refl)
    ]

    -- A tick loses no row of the spool and skips none, whenever its deadline passes. When ids are in order,
    -- batches read at least one row, the worker starts with all its read positions written, and the rows of a
    -- source do not change while the tick reads this source, then of these rows those that a completed tick
    -- reads, with those that its new position leaves, are those after its old position, in order. A tick
    -- that loses its lease, or finds that another worker leads, leaves all that it found itself. In these
    -- three cases all read positions are written or forgotten again; a tick that any other exception ends
    -- is none of them.
    pub run_once-reads :
        (cfg : Config) (env : Env) (now : ℕ) (pos : Position) (leases : Leases) (w : World)
        (src : String)
        → pos.cursors ≡ []
        → (of_source src
                (counted (read_by pos) (run_once ingest cfg env now pos saved leases w).role)
              ++ left src (next src (run_once ingest cfg env now pos saved leases w))
            ≡ left src (cursor_of src pos saved))
          × ((run_once ingest cfg env now pos saved leases w).position.cursors ≡ [])
    unfolding run_once run_active
    run_once-reads cfg env now pos leases w src empty =
        let start = cursor_of src pos saved in
        let on = record pos { state_loaded = true } in
        let distinct = ingest_all-Distinct sources on (subst Distinct (sym empty) tt) in
        let again : cursor_of src nowhere_yet saved ≡ start =
          cursor_of-cong src pos nowhere_yet saved (sym empty) in
        let prefix =
          ingest_all-left src sources on ∙ ap (left src) (cursor_of-cong src pos on saved refl) in
        let (ok, leases') = lease_acquire lease_name env.owner cfg.lease_ttl_s now leases in
        elim (Bool-cases (lease_acquire lease_name env.owner cfg.lease_ttl_s now leases).0) [
          | inl e ↦
              rw (e, run_active)
                (finish-reads src (read_by pos) (ingest_all fuel time_up batch sources s saved on).1
                  leases' _ start distinct prefix again)
          | inr e ↦ rw e (ap (left src) again, refl)
        ]
