-- ===== src/Syslog/Queue/Room.antt =====
-- The bound of the queue.
use netlog_ai.Prelude.{
  ℕ, ◌+◌, ◌-◌, ◌==◌, ◌≤◌, ◌≡◌, refl, ap, Bool, true, false, List, [], ◌∷◌, arith, ltb, length,
  length-append, length-take, take, append-nil, inl, inr, Bool-cases,
}
use netlog_ai.StateStore.Spool.{Line}
use netlog_ai.Syslog.Queue.{
  Queue, initial, concat, enqueue, drop_newest, flush_rows, take_pending, pick, land, accept,
  ingest, gather, abandon, take_batch, write_done, write_failed, close_queue, Event, received_line,
  flushed, landed, taken, written, failed, closed, step, run,
}
use netlog_ai.Syslog.Queue.Balance.{gather-concat, idle-cases, pending-cases, length-concat-append}

-- `close` does not come to its last block while the writer has a batch in hand
abbrev Follows : Event → Queue → Type 0
Follows closed q = q.batch ≡ []
Follows _ q = Unit

-- this at every step
abbrev pub IsOrderly : ℕ → ℕ → List Event → Queue → Type 0
IsOrderly capacity queue_max [] q = Unit
IsOrderly capacity queue_max (e ∷ es) q =
    Follows e q × IsOrderly capacity queue_max es (step capacity queue_max e q)

-- `_wq_rows` counts the lines queued or in the writer's hands, and is within the bound
record Roomy (queue_max : ℕ) (q : Queue) : Type 0 where
  queued : q.wq_in ≡ length (concat q.wq) + length q.batch + q.wq_out
  bounded : q.wq_in ≤ queue_max + q.wq_out

module _ (queue_max : ℕ) where
  enqueue-Roomy :
      (rows : List Line) (q : Queue)
      → q.wq_in ≡ length (concat q.wq) + length q.batch + q.wq_out
      → q.wq_in + length rows ≤ queue_max + q.wq_out
      → Roomy queue_max (enqueue rows q)
  unfolding enqueue
  enqueue-Roomy [] q queued fits = record { queued = queued; bounded = omega arith }
  enqueue-Roomy (l ∷ ls) q queued fits = record {
    queued =
        omega (arith, length-concat-append q.wq ((l ∷ ls) ∷ []), ap length (append-nil (l ∷ ls)));
    bounded = fits;
  }

  flush_rows-Roomy :
      (rows : List Line) (q : Queue)
      → Roomy queue_max q
      → Roomy queue_max (flush_rows queue_max rows q)
  unfolding flush_rows drop_newest
  flush_rows-Roomy rows q v =
      let room = (queue_max + q.wq_out) - q.wq_in in
      let queued = v.queued in
      let bounded = v.bounded in
      elim (Bool-cases (ltb room (length rows))) [
        | inl over ↦
            rw (over, flush_rows)
              (enqueue-Roomy (take room rows) _ queued (ground (arith, length-take room rows)))
        | inr fits ↦ rw (fits, flush_rows) (enqueue-Roomy rows q queued (ground (arith, fits)))
      ]

  take_pending-Roomy : (q : Queue) → Roomy queue_max q → Roomy queue_max (take_pending q)
  unfolding take_pending
  take_pending-Roomy q v = elim (pending-cases q.pending) [
    | inl e ↦ rw (e, take_pending) (record { queued = v.queued; bounded = v.bounded })
    | inr (l, ls, e) ↦ rw (e, take_pending) (record { queued = v.queued; bounded = v.bounded })
  ]

  take_batch-Roomy : (q : Queue) → q.batch ≡ [] → Roomy queue_max q → Roomy queue_max (take_batch q)
  unfolding take_batch
  take_batch-Roomy q idle v =
      let same = ap length (gather-concat [] q.wq) in
      let split = length-append (gather [] q.wq).0 (concat (gather [] q.wq).1) in
      let queued = v.queued in
      record { queued = omega (arith, same, split, ap length idle); bounded = v.bounded }

  abandon-Roomy : (q : Queue) → q.batch ≡ [] → Roomy queue_max (abandon q)
  unfolding abandon
  abandon-Roomy q idle = record { queued = omega (arith, ap length idle); bounded = omega arith }

  write_failed-Roomy :
      (stopping : Bool) (q : Queue) → Roomy queue_max q → Roomy queue_max (write_failed stopping q)
  unfolding write_failed
  write_failed-Roomy false q v = record {
    queued = let queued = v.queued in omega (arith, length-append q.batch (concat q.wq));
    bounded = v.bounded;
  }
  write_failed-Roomy true q v = abandon-Roomy (record q { wq = q.batch ∷ q.wq; batch = [] }) refl

  step-Roomy :
      (capacity : ℕ) (e : Event) (q : Queue)
      → Follows e q
      → Roomy queue_max q
      → Roomy queue_max (step capacity queue_max e q)
  unfolding step
  step-Roomy capacity (received_line l) q f v =
      unfold ingest accept in record { queued = v.queued; bounded = v.bounded }
  step-Roomy capacity flushed q f v = take_pending-Roomy q v
  step-Roomy capacity (landed i) q f v =
      unfold land in
      flush_rows-Roomy (pick i q.flying).0 (record q { flying = (pick i q.flying).1 })
        (record { queued = v.queued; bounded = v.bounded })
  step-Roomy capacity written q f v =
      let queued = v.queued in
      let bounded = v.bounded in
      unfold write_done in record { queued = omega arith; bounded = omega arith }
  step-Roomy capacity taken q f v = elim (idle-cases q) [
    | inl (e, idle) ↦ rw (idle, step) (take_batch-Roomy q e v)
    | inr busy ↦ rw (busy, step) v
  ]
  step-Roomy capacity (failed stopping) q f v = elim (idle-cases q) [
    | inl (e, idle) ↦ rw (idle, step) v
    | inr busy ↦ rw (busy, step) (write_failed-Roomy stopping q v)
  ]
  step-Roomy capacity closed q f v =
      unfold close_queue in
      elim (Bool-cases (length (concat q.wq) == 0)) [
        | inl e ↦ rw (e, close_queue) v
        | inr e ↦ rw (e, close_queue) (abandon-Roomy q f)
      ]

  run-Roomy :
      (capacity : ℕ) (es : List Event) (q : Queue)
      → IsOrderly capacity queue_max es q
      → Roomy queue_max q
      → Roomy queue_max (run capacity queue_max es q)
  unfolding run
  run-Roomy capacity [] q f v = v
  run-Roomy capacity (e ∷ es) q f v =
      run-Roomy capacity es (step capacity queue_max e q) f.1 (step-Roomy capacity e q f.0 v)

-- From the start on, after any steps in which `close` does not come to its last block while the writer has a
-- batch in hand: no more lines than the queue's limit are queued or in the writer's hands, and `_wq_rows`
-- counts these.
pub run-room :
    (capacity queue_max : ℕ) (es : List Event)
    → IsOrderly capacity queue_max es initial
    → (length (concat (run capacity queue_max es initial).wq)
          + length (run capacity queue_max es initial).batch
        ≤ queue_max)
      × ((run capacity queue_max es initial).wq_in
          ≡ length (concat (run capacity queue_max es initial).wq)
            + length (run capacity queue_max es initial).batch
            + (run capacity queue_max es initial).wq_out)
run-room capacity queue_max es orderly =
    let v =
      run-Roomy queue_max capacity es initial orderly
        (record { queued = refl; bounded = omega arith }) in
    (omega (arith, v.queued, v.bounded), v.queued)
