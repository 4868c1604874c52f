-- ===== src/Audit/Throttle/Examples.antt =====
-- Failed logins from one address, and a second one, whose row the log does not take.
use netlog_ai.Prelude.{ℕ, String, Bool, true, false, List, [], ◌∷◌}
use netlog_ai.Audit.Throttle.{Throttle, Call}

abbrev none_yet : Throttle
none_yet = record { recent = []; suppressed = 0; window_start = 0; window_rows = 0 }

abbrev call : String → ℕ → Bool → Call
call key now lands = record { action = "auth"; key = key; now = now; lands = lands }

abbrev calls : List Call
calls = call "a" 100 true ∷ call "a" 110 true ∷ call "b" 120 false ∷ call "a" 130 true ∷ []
