-- ===== src/Audit/Throttle/Accounts.antt =====
-- A flood stays visible and bounded.
use netlog_ai.Prelude.{ℕ, ◌+◌, ◌≤◌, List, [], ◌∷◌, length}
use netlog_ai.Audit.Throttle.{Throttle, Reply, suppressed_call, written, lost}

-- the rows that the log took
abbrev pub rows_of : List (ℕ × Reply) → ℕ
rows_of [] = 0
rows_of ((now, suppressed_call) ∷ l) = rows_of l
rows_of ((now, written n) ∷ l) = rows_of l + 1
rows_of ((now, lost n) ∷ l) = rows_of l

-- the suppressed calls that these rows carry
abbrev pub carried_by : List (ℕ × Reply) → ℕ
carried_by [] = 0
carried_by ((now, suppressed_call) ∷ l) = carried_by l
carried_by ((now, written n) ∷ l) = carried_by l + n
carried_by ((now, lost n) ∷ l) = carried_by l

-- the calls whose row was lost, and the suppressed ones that it carried
abbrev pub lost_with : List (ℕ × Reply) → ℕ
lost_with [] = 0
lost_with ((now, suppressed_call) ∷ l) = lost_with l
lost_with ((now, written n) ∷ l) = lost_with l
lost_with ((now, lost n) ∷ l) = lost_with l + (n + 1)

pub record IsBounded (t : Throttle) : Type 0 where
  pub keys : length t.recent ≤ 1024
  pub rows : t.window_rows ≤ 120

-- the calls that a reply accounts for
abbrev counted : Reply → ℕ
counted suppressed_call = 0
counted (written n) = n + 1
counted (lost n) = n + 1
