-- ===== src/Syslog/Queue/Balance.antt =====
-- Every received line is accounted for.
use netlog_ai.Prelude.{
  ℕ, zero, suc, ◌+◌, ◌-◌, ◌==◌, ◌≡◌, refl, sym, ap, ◌∙◌, Bool, true, false, List, [], ◌∷◌, ◌++◌,
  arith, ltb, length, length-append, length-take, take, append-nil, append_assoc, inl, inr,
  Bool-cases, ◌⊎◌,
}
use netlog_ai.StateStore.Spool.{Line}
use netlog_ai.Syslog.Queue.{
  Queue, initial, concat, enqueue, drop_newest, flush_rows, take_pending, pick, land, accept,
  ingest, gather, abandon, take_batch, write_done, write_failed, close_queue, Event, received_line,
  flushed, landed, taken, written, failed, closed, step, run, is_idle,
}

-- The counters: lines settled, lines ever accepted into the queue, lines ever received.
pub record Balanced (q : Queue) : Type 0 where
  pub settled : q.done_rows ≡ q.spooled + q.spool_lines_lost
  pub taken_in : q.enq_rows ≡ q.done_rows + (length (concat q.wq) + length q.batch)
  pub all : q.received ≡ length q.pending + length (concat q.flying) + q.enq_rows

pub concat-append : (a b : List (List Line)) → concat (a ++ b) ≡ concat a ++ concat b
concat-append [] b = refl
concat-append (l ∷ a) b =
    ap (λ x. l ++ x) (concat-append a b) ∙ sym (append_assoc l (concat a) (concat b))

pub length-concat-append :
    (a b : List (List Line)) → length (concat (a ++ b)) ≡ length (concat a) + length (concat b)
length-concat-append a b = ap length (concat-append a b) ∙ length-append (concat a) (concat b)

pub gather-concat :
    (acc : List Line) (wq : List (List Line))
    → (gather acc wq).0 ++ concat (gather acc wq).1 ≡ acc ++ concat wq
unfolding gather
gather-concat acc [] = refl
gather-concat acc (part ∷ wq) = elim (Bool-cases (ltb (length acc) 5000)) [
  | inl e ↦ rw e (gather-concat (acc ++ part) wq ∙ append_assoc acc part (concat wq))
  | inr e ↦ rw e
]

-- what enqueuing does, whether or not there is a row
enqueue_lem :
    (rows : List Line) (q : Queue)
    → (length (concat (enqueue rows q).wq) ≡ length (concat q.wq) + length rows)
      × ((enqueue rows q).enq_rows ≡ q.enq_rows + length rows)
      × ((enqueue rows q).done_rows ≡ q.done_rows)
      × ((enqueue rows q).spooled ≡ q.spooled)
      × ((enqueue rows q).spool_lines_lost ≡ q.spool_lines_lost)
      × ((enqueue rows q).pending ≡ q.pending)
      × ((enqueue rows q).flying ≡ q.flying)
      × ((enqueue rows q).batch ≡ q.batch)
      × ((enqueue rows q).received ≡ q.received)
unfolding enqueue
enqueue_lem [] q = (omega arith, omega arith, refl, refl, refl, refl, refl, refl, refl)
enqueue_lem (l ∷ ls) q = (
  length-concat-append q.wq ((l ∷ ls) ∷ [])
      ∙ ap (λ x. length (concat q.wq) + length x) (append-nil (l ∷ ls)),
  refl,
  refl,
  refl,
  refl,
  refl,
  refl,
  refl,
  refl,
)

pub pending-cases : (l : List Line) → (l ≡ []) ⊎ ((x : Line) × (xs : List Line) × (l ≡ x ∷ xs))
pending-cases [] = inl refl
pending-cases (x ∷ xs) = inr (x, xs, refl)

pub idle-cases : (q : Queue) → ((q.batch ≡ []) × (is_idle q ≡ true)) ⊎ (is_idle q ≡ false)
idle-cases q = go q.batch
  where
    go :
        (l : List Line)
        → ((l ≡ []) × ((elim l [ [] ↦ true | _ ↦ false ]) ≡ true))
          ⊎ ((elim l [ [] ↦ true | _ ↦ false ]) ≡ false)
    go [] = inl (refl, refl)
    go (x ∷ l) = inr refl

-- what `rows` leave when they are the lines that the counters still miss
enqueue-Balanced :
    (rows : List Line) (q : Queue)
    → q.done_rows ≡ q.spooled + q.spool_lines_lost
    → q.enq_rows ≡ q.done_rows + (length (concat q.wq) + length q.batch)
    → q.received ≡ length q.pending + length (concat q.flying) + q.enq_rows + length rows
    → Balanced (enqueue rows q)
enqueue-Balanced rows q settled taken_in all =
    let (w, e, d, s, l, p, f, b, r) = enqueue_lem rows q in
    record {
      settled = rw (d, s, l) settled;
      taken_in = rw (e, d, b) (omega (arith, w));
      all = rw (r, p, f, e) (omega arith);
    }

-- no line is picked twice, and none is forgotten
pick-length :
    (i : ℕ) (flying : List (List Line))
    → length (pick i flying).0 + length (concat (pick i flying).1) ≡ length (concat flying)
unfolding pick
pick-length i [] = refl
pick-length zero (rows ∷ others) = sym (length-append rows (concat others))
pick-length (suc i) (rows ∷ others) = omega (
  arith,
  pick-length i others,
  length-append rows (concat (pick i others).1),
  length-append rows (concat others),
)

take_pending-Balanced : (q : Queue) → Balanced q → Balanced (take_pending q)
unfolding take_pending
take_pending-Balanced q v = elim (pending-cases q.pending) [
  | inl e ↦
      rw (e, take_pending)
        (record {
          settled = v.settled;
          taken_in = v.taken_in;
          all = let all = v.all in omega (arith, ap length e);
        })
  | inr (l, ls, e) ↦
      rw (e, take_pending)
        (record {
          settled = v.settled;
          taken_in = v.taken_in;
          all =
              let all = v.all in
              omega (
                arith,
                ap length e,
                length-concat-append q.flying ((l ∷ ls) ∷ []),
                ap length (append-nil (l ∷ ls)),
              );
        })
]

flush_rows-Balanced :
    (queue_max : ℕ) (rows : List Line) (q : Queue)
    → q.done_rows ≡ q.spooled + q.spool_lines_lost
    → q.enq_rows ≡ q.done_rows + (length (concat q.wq) + length q.batch)
    → q.received ≡ length q.pending + length (concat q.flying) + q.enq_rows + length rows
    → Balanced (flush_rows queue_max rows q)
unfolding flush_rows drop_newest
flush_rows-Balanced queue_max rows q settled taken_in all =
    let room = (queue_max + q.wq_out) - q.wq_in in
    elim (Bool-cases (ltb room (length rows))) [
      | inl over ↦
          let kept = length-take room rows in
          rw (over, flush_rows)
            (enqueue-Balanced (take room rows) _ (omega arith) (omega arith) (ground (arith, kept)))
      | inr fits ↦ rw (fits, flush_rows) (enqueue-Balanced rows q settled taken_in all)
    ]

land-Balanced : (queue_max i : ℕ) (q : Queue) → Balanced q → Balanced (land queue_max i q)
unfolding land
land-Balanced queue_max i q v =
    let all = v.all in
    flush_rows-Balanced queue_max (pick i q.flying).0 (record q { flying = (pick i q.flying).1 })
      v.settled v.taken_in (omega (arith, pick-length i q.flying))

ingest-Balanced :
    (capacity : ℕ) (l : Line) (q : Queue) → Balanced q → Balanced (ingest capacity l q).1
unfolding ingest accept
ingest-Balanced capacity l q v = record {
  settled = v.settled;
  taken_in = v.taken_in;
  all = let all = v.all in omega (arith, length-append q.pending (l ∷ []));
}

take_batch-Balanced : (q : Queue) → q.batch ≡ [] → Balanced q → Balanced (take_batch q)
unfolding take_batch
take_batch-Balanced q idle v =
    let same = ap length (gather-concat [] q.wq) in
    let split = length-append (gather [] q.wq).0 (concat (gather [] q.wq).1) in
    let taken_in = v.taken_in in
    record {
      settled = v.settled;
      taken_in = omega (arith, same, split, ap length idle);
      all = v.all;
    }

write_done-Balanced : (q : Queue) → Balanced q → Balanced (write_done q)
unfolding write_done
write_done-Balanced q v = record { settled = omega arith; taken_in = omega arith; all = v.all }
  where
    open v use {settled, taken_in}

abandon-Balanced : (q : Queue) → Balanced q → Balanced (abandon q)
unfolding abandon
abandon-Balanced q v = record { settled = omega arith; taken_in = omega arith; all = v.all }
  where
    open v use {settled, taken_in}

requeue-Balanced :
    (q : Queue) → Balanced q → Balanced (record q { wq = q.batch ∷ q.wq; batch = [] })
requeue-Balanced q v = record {
  settled = v.settled;
  taken_in = let taken_in = v.taken_in in omega (arith, length-append q.batch (concat q.wq));
  all = v.all;
}

write_failed-Balanced :
    (stopping : Bool) (q : Queue) → Balanced q → Balanced (write_failed stopping q)
unfolding write_failed
write_failed-Balanced false q v = requeue-Balanced q v
write_failed-Balanced true q v =
    abandon-Balanced (record q { wq = q.batch ∷ q.wq; batch = [] }) (requeue-Balanced q v)

close_queue-Balanced : (q : Queue) → Balanced q → Balanced (close_queue q)
unfolding close_queue
close_queue-Balanced q v = elim (Bool-cases (length (concat q.wq) == 0)) [
  | inl e ↦ rw (e, close_queue) v
  | inr e ↦ rw (e, close_queue) (abandon-Balanced q v)
]

step-Balanced :
    (capacity queue_max : ℕ) (e : Event) (q : Queue)
    → Balanced q
    → Balanced (step capacity queue_max e q)
unfolding step
step-Balanced capacity queue_max (received_line l) q v = ingest-Balanced capacity l q v
step-Balanced capacity queue_max flushed q v = take_pending-Balanced q v
step-Balanced capacity queue_max (landed i) q v = land-Balanced queue_max i q v
step-Balanced capacity queue_max written q v = write_done-Balanced q v
step-Balanced capacity queue_max taken q v = elim (idle-cases q) [
  | inl (e, idle) ↦ rw (idle, step) (take_batch-Balanced q e v)
  | inr busy ↦ rw (busy, step) v
]
step-Balanced capacity queue_max (failed stopping) q v = elim (idle-cases q) [
  | inl (e, idle) ↦ rw (idle, step) v
  | inr busy ↦ rw (busy, step) (write_failed-Balanced stopping q v)
]
step-Balanced capacity queue_max closed q v = close_queue-Balanced q v

run-Balanced :
    (capacity queue_max : ℕ) (es : List Event) (q : Queue)
    → Balanced q
    → Balanced (run capacity queue_max es q)
unfolding run
run-Balanced capacity queue_max [] q v = v
run-Balanced capacity queue_max (e ∷ es) q v =
    run-Balanced capacity queue_max es (step capacity queue_max e q)
      (step-Balanced capacity queue_max e q v)

-- From the start on, after any steps of the threads that receive and flush, of the writer and of `close`, a
-- writer that is stuck at `close` included, every line received is waiting to be flushed, in the hands of
-- a thread that flushes, queued, in the writer's hands, spooled or counted as lost, each in exactly one
-- of these places; and the count that `_flush_sync` waits for is ahead of the settled one by the lines
-- queued or in the writer's hands.
pub run-accounts :
    (capacity queue_max : ℕ) (es : List Event)
    → ((run capacity queue_max es initial).received
        ≡ length (run capacity queue_max es initial).pending
          + length (concat (run capacity queue_max es initial).flying)
          + length (concat (run capacity queue_max es initial).wq)
          + length (run capacity queue_max es initial).batch
          + (run capacity queue_max es initial).spooled
          + (run capacity queue_max es initial).spool_lines_lost)
      × ((run capacity queue_max es initial).enq_rows
          ≡ (run capacity queue_max es initial).done_rows
            + (length (concat (run capacity queue_max es initial).wq)
                + length (run capacity queue_max es initial).batch))
run-accounts capacity queue_max es =
    let v =
      run-Balanced capacity queue_max es initial
        (record { settled = refl; taken_in = refl; all = refl }) in
    (omega (arith, v.settled, v.taken_in, v.all), v.taken_in)
