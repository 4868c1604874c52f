-- ===== src/Syslog/Queue.antt =====
-- The path of a received line to the spool: `_ingest`, `_flush`, the rounds of `_writer_loop`, `_abandon` and
-- the end of `close`. Each block under a lock is one step, so threads interleave between steps; `_flush` has
-- two. A line is taken after decoding and cleaning; the spool is there (`_db`).
pub mod Balance
pub mod Room
pub mod Fifo
mod Examples
use netlog_ai.Prelude.{
  ℕ, zero, suc, ◌+◌, ◌-◌, ◌==◌, Bool, true, false, List, [], ◌∷◌, ◌++◌, ltb, leb, if◌then◌else◌,
  length, take, drop,
}
use netlog_ai.StateStore.Spool.{Line}

pub record Queue : Type 0 where
  pub buffer : List Line
  pub total_ingested : ℕ
  pub received : ℕ
  pub pending : List Line
  -- the local `rows` of the threads that are between the two blocks of `_flush`, in the order of the first
  pub flying : List (List Line)
  pub wq : List (List Line)
  -- the writer's local `batch`
  pub batch : List Line
  -- `_wq_rows`, which may fall below zero: it is `wq_in` less `wq_out`
  pub wq_in : ℕ
  pub wq_out : ℕ
  pub enq_rows : ℕ
  pub done_rows : ℕ
  pub queue_overflow : ℕ
  pub spool_lines_lost : ℕ
  pub spooled : ℕ

abbrev pub initial : Queue
initial = record {
  buffer = [];
  total_ingested = 0;
  received = 0;
  pending = [];
  flying = [];
  wq = [];
  batch = [];
  wq_in = 0;
  wq_out = 0;
  enq_rows = 0;
  done_rows = 0;
  queue_overflow = 0;
  spool_lines_lost = 0;
  spooled = 0;
}

abbrev pub concat : List (List Line) → List Line
concat [] = []
concat (l ∷ ls) = l ++ concat ls

-- the rows that find room, after the drop of those that do not
pub enqueue : List Line → Queue → Queue
enqueue [] q = q
enqueue (l ∷ ls) q = record q {
  wq = q.wq ++ (l ∷ ls) ∷ [];
  wq_in = q.wq_in + length (l ∷ ls);
  enq_rows = q.enq_rows + length (l ∷ ls);
}

-- `rows`, with `over` of them dropped
pub drop_newest : ℕ → Queue → Queue
drop_newest over q = record q {
  queue_overflow = q.queue_overflow + over;
  spool_lines_lost = q.spool_lines_lost + over;
  enq_rows = q.enq_rows + over;
  done_rows = q.done_rows + over;
}

-- the second block of `_flush`; room = max(0, self.queue_max - self._wq_rows)
pub flush_rows : ℕ → List Line → Queue → Queue
flush_rows queue_max rows q =
    let room = (queue_max + q.wq_out) - q.wq_in in
    if ltb room (length rows)
    then enqueue (take room rows) (drop_newest (length rows - room) q)
    else enqueue rows q

-- the first block of `_flush`: rows, self._pending = self._pending, []; without rows the thread returns
pub take_pending : Queue → Queue
take_pending q = elim q.pending [
  | [] ↦ q
  | l ∷ ls ↦ record q { pending = []; flying = q.flying ++ (l ∷ ls) ∷ [] }
]

-- the rows of one of the threads, and those of the others
pub pick : ℕ → List (List Line) → List Line × List (List Line)
pick i [] = ([], [])
pick zero (rows ∷ others) = (rows, others)
pick (suc i) (rows ∷ others) = let (own, rest) = pick i others in (own, rows ∷ rest)

-- one of them comes to the second block
pub land : ℕ → ℕ → Queue → Queue
land queue_max i q =
    let (rows, others) = pick i q.flying in flush_rows queue_max rows (record q { flying = others })

-- the part of `_ingest` under the lock
pub accept : ℕ → Line → Queue → Queue
accept capacity line q =
    let longer = q.buffer ++ line ∷ [] in
    record q {
      buffer = drop (length longer - capacity) longer;
      total_ingested = q.total_ingested + 1;
      received = q.received + 1;
      pending = q.pending ++ line ∷ [];
    }

-- `flush_now`, on which `_ingest` calls `_flush` after it has left the lock, and the queue
pub ingest : ℕ → Line → Queue → Bool × Queue
ingest capacity line q = let q1 = accept capacity line q in (leb 512 (length q1.pending), q1)

-- while self._wq and len(batch) < _WRITE_BATCH
pub gather : List Line → List (List Line) → List Line × List (List Line)
gather acc [] = (acc, [])
gather acc (part ∷ wq) =
    let more = gather (acc ++ part) wq in if ltb (length acc) 5000 then more else (acc, part ∷ wq)

pub abandon : Queue → Queue
abandon q =
    let lost = length (concat q.wq) in
    record q {
      wq = [];
      wq_in = 0;
      wq_out = 0;
      done_rows = q.done_rows + lost;
      spool_lines_lost = q.spool_lines_lost + lost;
    }

-- the writer takes a batch; it has none in hand
pub take_batch : Queue → Queue
take_batch q = let (batch, wq) = gather [] q.wq in record q { batch = batch; wq = wq }

-- `spool_append` returned
pub write_done : Queue → Queue
write_done q = record q {
  batch = [];
  wq_out = q.wq_out + length q.batch;
  done_rows = q.done_rows + length q.batch;
  spooled = q.spooled + length q.batch;
}

-- `spool_append` raised; `stopping` was read when the batch was taken
pub write_failed : Bool → Queue → Queue
write_failed stopping q =
    let back = record q { wq = q.batch ∷ q.wq; batch = [] } in
    if stopping then abandon back else back

-- the last block of `close`: the writer may still have a batch in hand
pub close_queue : Queue → Queue
close_queue q = if length (concat q.wq) == 0 then q else abandon q

-- What the threads may do next. The listener accepts a line; a thread that flushes, the listener's or a
-- reader's, takes the pending lines, and later enqueues them; the writer takes a batch, and with one in hand
-- succeeds or fails; `close` abandons what is left, whether the writer has ended or is stuck.
pub data Event : Type 0 where
  received_line : Line → Event
  flushed : Event
  landed : ℕ → Event
  taken written : Event
  failed : Bool → Event
  closed : Event

abbrev pub is_idle : Queue → Bool
is_idle q = elim q.batch [ [] ↦ true | _ ↦ false ]

pub step : ℕ → ℕ → Event → Queue → Queue
step capacity queue_max (received_line l) q = (ingest capacity l q).1
step capacity queue_max flushed q = take_pending q
step capacity queue_max (landed i) q = land queue_max i q
step capacity queue_max taken q = if is_idle q then take_batch q else q
step capacity queue_max written q = write_done q
step capacity queue_max (failed stopping) q = if is_idle q then q else write_failed stopping q
step capacity queue_max closed q = close_queue q

pub run : ℕ → ℕ → List Event → Queue → Queue
run capacity queue_max [] q = q
run capacity queue_max (e ∷ es) q = run capacity queue_max es (step capacity queue_max e q)

-- the lines that a step accepts, and those that it hands to the spool
abbrev pub accepted : Event → List Line
accepted (received_line l) = l ∷ []
accepted _ = []

abbrev pub handed : Event → Queue → List Line
handed written q = q.batch
handed _ q = []

abbrev pub all_accepted : List Event → List Line
all_accepted [] = []
all_accepted (e ∷ es) = accepted e ++ all_accepted es

pub all_handed : ℕ → ℕ → List Event → Queue → List Line
all_handed capacity queue_max [] q = []
all_handed capacity queue_max (e ∷ es) q =
    handed e q ++ all_handed capacity queue_max es (step capacity queue_max e q)
