-- ===== src/Syslog/Queue/Examples.antt =====
-- The theorems about the queue, for three lines, a write that fails once, and a queue of at most two lines.
use netlog_ai.Prelude.{◌+◌, ◌≤◌, String, ◌≡◌, refl, false, List, [], ◌∷◌, ◌++◌, length}
use netlog_ai.StateStore.Spool.{Line}
use netlog_ai.Syslog.Queue.{
  initial, concat, enqueue, drop_newest, flush_rows, take_pending, pick, land, accept, ingest,
  gather, take_batch, write_done, write_failed, Event, received_line, flushed, landed, taken,
  written, failed, closed, step, run, all_handed,
}
use netlog_ai.Syslog.Queue.Balance.{run-accounts}
use netlog_ai.Syslog.Queue.Room.{run-room}
use netlog_ai.Syslog.Queue.Fifo.{waiting, run-fifo}

abbrev line : String → Line
line text = record { received_at = 1; sender = "10.0.0.1"; line = text }

-- a second thread flushes before the first has enqueued its line
abbrev retried : List Event
retried =
    received_line (line "a")
    ∷ flushed
    ∷ received_line (line "b")
    ∷ flushed
    ∷ landed 0
    ∷ taken
    ∷ failed false
    ∷ landed 0
    ∷ taken
    ∷ written
    ∷ received_line (line "c")
    ∷ []

-- the writer is stuck with a line when the source is closed
abbrev stuck : List Event
stuck =
    received_line (line "a")
    ∷ flushed
    ∷ landed 0
    ∷ taken
    ∷ received_line (line "b")
    ∷ flushed
    ∷ landed 0
    ∷ closed
    ∷ []

abbrev overflowing : List Event
overflowing =
    received_line (line "a")
    ∷ received_line (line "b")
    ∷ received_line (line "c")
    ∷ flushed
    ∷ landed 0
    ∷ taken
    ∷ []

run-accounts_example :
    ((run 10 2 stuck initial).received
      ≡ length (run 10 2 stuck initial).pending
        + length (concat (run 10 2 stuck initial).flying)
        + length (concat (run 10 2 stuck initial).wq)
        + length (run 10 2 stuck initial).batch
        + (run 10 2 stuck initial).spooled
        + (run 10 2 stuck initial).spool_lines_lost)
    × ((run 10 2 stuck initial).enq_rows
        ≡ (run 10 2 stuck initial).done_rows
          + (length (concat (run 10 2 stuck initial).wq) + length (run 10 2 stuck initial).batch))
run-accounts_example = run-accounts 10 2 stuck

run-room_example :
    (length (concat (run 10 2 overflowing initial).wq) + length (run 10 2 overflowing initial).batch
      ≤ 2)
    × ((run 10 2 overflowing initial).wq_in
        ≡ length (concat (run 10 2 overflowing initial).wq)
          + length (run 10 2 overflowing initial).batch
          + (run 10 2 overflowing initial).wq_out)
run-room_example = run-room 10 2 overflowing (tt, (tt, (tt, (tt, (tt, (tt, tt))))))

run-fifo_example :
    all_handed 10 2 retried initial ++ waiting (run 10 2 retried initial)
    ≡ line "a" ∷ line "b" ∷ line "c" ∷ []
run-fifo_example =
    run-fifo 10 2 retried (tt, (tt, (tt, (tt, (refl, (tt, (tt, (refl, (tt, (tt, (tt, tt)))))))))))
      (unfold run step ingest accept take_pending land pick flush_rows enqueue drop_newest
          take_batch gather write_failed write_done in
        refl)
