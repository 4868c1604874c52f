-- ===== src/Syslog/Queue/Fifo.antt =====
-- Lines reach the spool in the order in which they were received.
use netlog_ai.Prelude.{
  ℕ, zero, suc, ◌+◌, ◌-◌, ◌==◌, ◌≤◌, ◌≡◌, refl, sym, ap, ◌∙◌, Bool, true, false, List, [], ◌∷◌,
  ◌++◌, arith, ltb, length, take, All, append-nil, append_assoc, inl, inr, Bool-cases,
}
use netlog_ai.StateStore.Spool.{Line}
use netlog_ai.Syslog.Queue.{
  Queue, initial, concat, enqueue, drop_newest, flush_rows, take_pending, pick, land, accept,
  ingest, close_queue, abandon, take_batch, write_done, write_failed, Event, received_line, flushed,
  landed, taken, written, failed, closed, step, run, accepted, handed, all_accepted, all_handed,
}
use netlog_ai.Syslog.Queue.Balance.{concat-append, gather-concat, idle-cases, pending-cases}

-- the lines on their way, oldest first
abbrev pub waiting : Queue → List Line
waiting q = q.batch ++ concat q.wq ++ concat q.flying ++ q.pending

-- What a step does to them: it never takes back a loss, and if it loses nothing, then what it hands on and
-- what is left waiting is what was waiting and what it takes in.
abbrev Forwards : Queue → List Line → List Line → Queue → Type 0
Forwards q out into q' =
    (q.spool_lines_lost ≤ q'.spool_lines_lost)
    × (q'.spool_lines_lost ≡ q.spool_lines_lost → out ++ waiting q' ≡ waiting q ++ into)

-- the thread that enqueues its lines is the one that took them first
abbrev pub InTurn : Event → Type 0
InTurn (landed i) = i ≡ 0
InTurn _ = Unit

empty_of_length : (l : List Line) → length l ≡ 0 → l ≡ []
empty_of_length [] h = refl
empty_of_length (x ∷ l) h = absurd (omega arith)

-- what enqueuing does to the lines queued, when the other places are as they were
enqueue-concat :
    (rows : List Line) (q : Queue)
    → (concat (enqueue rows q).wq ≡ concat q.wq ++ rows)
      × ((enqueue rows q).spool_lines_lost ≡ q.spool_lines_lost)
      × ((enqueue rows q).batch ≡ q.batch)
      × ((enqueue rows q).flying ≡ q.flying)
      × ((enqueue rows q).pending ≡ q.pending)
unfolding enqueue
enqueue-concat [] q = (sym (append-nil _), refl, refl, refl, refl)
enqueue-concat (l ∷ ls) q = (
  concat-append q.wq ((l ∷ ls) ∷ []) ∙ ap (λ x. concat q.wq ++ x) (append-nil (l ∷ ls)),
  refl,
  refl,
  refl,
  refl,
)

enqueue-waiting :
    (rows : List Line) (q : Queue)
    → waiting (enqueue rows q) ≡ q.batch ++ concat q.wq ++ rows ++ concat q.flying ++ q.pending
enqueue-waiting rows q =
    let (w, l, b, f, p) = enqueue-concat rows q in rw (w, b, f, p) (simp append_assoc)

module _ (queue_max : ℕ) where
  stay-Forwards : (q : Queue) → Forwards q [] [] q
  stay-Forwards q = (omega arith, λ none. sym (append-nil _))

  flush_rows-Forwards :
      (rows : List Line) (q : Queue)
      → (q.spool_lines_lost ≤ (flush_rows queue_max rows q).spool_lines_lost)
        × ((flush_rows queue_max rows q).spool_lines_lost ≡ q.spool_lines_lost
            → waiting (flush_rows queue_max rows q)
              ≡ q.batch ++ concat q.wq ++ rows ++ concat q.flying ++ q.pending)
  unfolding flush_rows drop_newest
  flush_rows-Forwards rows q =
      let room = (queue_max + q.wq_out) - q.wq_in in
      elim (Bool-cases (ltb room (length rows))) [
        | inl over ↦
            let q1 = drop_newest (length rows - room) q in
            let (w, l, b, f, p) = enqueue-concat (take room rows) q1 in
            rw (over, flush_rows) (ground (arith, l), λ none. absurd (ground (arith, l)))
        | inr fits ↦
            let (w, l, b, f, p) = enqueue-concat rows q in
            rw (fits, flush_rows) (omega (arith, l), λ none. enqueue-waiting rows q)
      ]

  pick-first :
      (flying : List (List Line)) → (pick 0 flying).0 ++ concat (pick 0 flying).1 ≡ concat flying
  unfolding pick
  pick-first [] = refl
  pick-first (rows ∷ others) = refl

  land-Forwards : (q : Queue) → Forwards q [] [] (land queue_max 0 q)
  unfolding land
  land-Forwards q =
      let rows = (pick 0 q.flying).0 in
      let others = (pick 0 q.flying).1 in
      let (g, a) = flush_rows-Forwards rows (record q { flying = others }) in
      (
        g,
        λ none.
            let whole = pick-first q.flying in
            a none ∙ (rw⁻¹ whole (simp (append_assoc, append-nil))),
      )

  take_pending-Forwards : (q : Queue) → Forwards q [] [] (take_pending q)
  unfolding take_pending
  take_pending-Forwards q = elim (pending-cases q.pending) [
    | inl e ↦ rw (e, take_pending) (omega arith, λ none. rw e (sym (append-nil _)))
    | inr (l, ls, e) ↦
        rw (e, take_pending)
          (omega arith, λ none. rw concat-append (simp (append_assoc, append-nil)))
  ]

  ingest-Forwards :
      (capacity : ℕ) (l : Line) (q : Queue) → Forwards q [] (l ∷ []) (ingest capacity l q).1
  unfolding ingest accept
  ingest-Forwards capacity l q = (omega arith, λ none. simp append_assoc)

  take_batch-Forwards : (q : Queue) → q.batch ≡ [] → Forwards q [] [] (take_batch q)
  unfolding take_batch
  take_batch-Forwards q idle = (
    omega arith,
    λ none.
        rw idle (
          ap (λ x. x ++ concat q.flying ++ q.pending) (gather-concat [] q.wq) ∙ sym (append-nil _)),
  )

  abandon-Forwards : (q : Queue) → Forwards q [] [] (abandon q)
  unfolding abandon
  abandon-Forwards q = (
    omega arith,
    λ none.
        let nothing = empty_of_length (concat q.wq) (omega arith) in
        rw nothing (sym (append-nil _)),
  )

  close_queue-Forwards : (q : Queue) → Forwards q [] [] (close_queue q)
  unfolding close_queue
  close_queue-Forwards q = elim (Bool-cases (length (concat q.wq) == 0)) [
    | inl e ↦ rw (e, close_queue) (stay-Forwards q)
    | inr e ↦ rw (e, close_queue) (abandon-Forwards q)
  ]

  requeue-Forwards : (q : Queue) → Forwards q [] [] (record q { wq = q.batch ∷ q.wq; batch = [] })
  requeue-Forwards q = (omega arith, λ none. sym (append-nil _))

  write_failed-Forwards : (stopping : Bool) (q : Queue) → Forwards q [] [] (write_failed stopping q)
  unfolding write_failed
  write_failed-Forwards false q = requeue-Forwards q
  write_failed-Forwards true q =
      let back = record q { wq = q.batch ∷ q.wq; batch = [] } in
      let (g, a) = requeue-Forwards q in
      let (h, b) = abandon-Forwards back in
      (omega (arith, g, h), λ none. b none ∙ append-nil _ ∙ a refl)

  step-Forwards :
      (capacity : ℕ) (e : Event) (q : Queue)
      → InTurn e
      → Forwards q (handed e q) (accepted e) (step capacity queue_max e q)
  unfolding step
  step-Forwards capacity (received_line l) q turn = ingest-Forwards capacity l q
  step-Forwards capacity flushed q turn = take_pending-Forwards q
  step-Forwards capacity (landed zero) q turn = land-Forwards q
  step-Forwards capacity (landed (suc i)) q turn = absurd (omega arith)
  step-Forwards capacity written q turn =
      unfold write_done in (omega arith, λ none. simp (append_assoc, append-nil))
  step-Forwards capacity taken q turn = elim (idle-cases q) [
    | inl (e, idle) ↦ rw (idle, step) (take_batch-Forwards q e)
    | inr busy ↦ rw (busy, step) (stay-Forwards q)
  ]
  step-Forwards capacity (failed stopping) q turn = elim (idle-cases q) [
    | inl (e, idle) ↦ rw (idle, step) (stay-Forwards q)
    | inr busy ↦ rw (busy, step) (write_failed-Forwards stopping q)
  ]
  step-Forwards capacity closed q turn = close_queue-Forwards q

  run-Forwards :
      (capacity : ℕ) (es : List Event) (q : Queue)
      → All InTurn es
      → Forwards q
          (all_handed capacity queue_max es q)
          (all_accepted es)
          (run capacity queue_max es q)
  unfolding run all_handed
  run-Forwards capacity [] q turns = stay-Forwards q
  run-Forwards capacity (e ∷ es) q turns =
      let next = step capacity queue_max e q in
      let (g, a) = step-Forwards capacity e q turns.0 in
      let (h, b) = run-Forwards capacity es next turns.1 in
      let rest = all_handed capacity queue_max es next in
      (
        omega (arith, g, h),
        λ none.
            append_assoc (handed e q) rest (waiting (run capacity queue_max es next))
            ∙ ap (λ l. handed e q ++ l) (b (omega (arith, g, h, none)))
            ∙ sym (append_assoc (handed e q) (waiting next) (all_accepted es))
            ∙ ap (λ l. l ++ all_accepted es) (a (omega (arith, g, h, none)))
            ∙ append_assoc (waiting q) (accepted e) (all_accepted es),
      )

-- From the start on, after any steps of the threads that receive and flush, of the writer and of `close` in
-- which no line was counted as lost, and in which threads that flush come to the second lock in the order
-- in which they left the first: the lines handed to the spool, followed by those in the writer's hands,
-- queued, in the hands of a thread that flushes, and waiting, are the lines received, in the order in
-- which they came. A failed write is tried again in its place.
pub run-fifo :
    (capacity queue_max : ℕ) (es : List Event)
    → All InTurn es
    → (run capacity queue_max es initial).spool_lines_lost ≡ 0
    → all_handed capacity queue_max es initial ++ waiting (run capacity queue_max es initial)
      ≡ all_accepted es
run-fifo capacity queue_max es turns none =
    (run-Forwards queue_max capacity es initial turns).1 none
