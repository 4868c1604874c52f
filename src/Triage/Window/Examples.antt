-- ===== src/Triage/Window/Examples.antt =====
-- The theorem about duplicates, for a message that comes three times.
use netlog_ai.Prelude.{ℕ, ◌≡◌, String, Option, some, List, [], ◌∷◌, Pair}
use netlog_ai.StateStore.Spool.{Row}
use netlog_ai.Triage.Window.{Event, Window, take_rows}
use netlog_ai.Triage.Window.Thins.{stamps_of, thin, last_kept, arrivals, take_rows-thins}

abbrev row : ℕ → ℕ → Row
row id at = record {
  id = id;
  source = "tcp";
  received_at = at;
  sender = "10.0.0.1";
  line = "link down";
}

abbrev rows : List Row
rows = row 1 100 ∷ row 2 120 ∷ row 3 170 ∷ []

abbrev parse : String → String → Option Event
parse line host = some (record { hostname = host; message = line; sender_ip = "" })

abbrev window : Window
window = record { entries = []; recent = []; next_number = 0; duplicates_dropped = 0 }

abbrev key : Pair
key = ("10.0.0.1", "link down")

take_rows-thins_example :
    stamps_of key (take_rows parse 60 50 rows (record { kept = []; window = window })).kept
    ≡ thin 60 (last_kept key window) (arrivals parse 60 50 key rows)
take_rows-thins_example = take_rows-thins parse 60 50 key rows window
