-- ===== src/StateStore/Incidents.antt =====
-- The incident journal of state_store.py: `incidents_append` with its cap, `incidents_all`,
-- `incidents_since`, `incidents_count` and `incidents_resolve`. JSON columns are held decoded.
pub mod Appends
use netlog_ai.Prelude.{
  ℕ, suc, ◌+◌, ◌-◌, String, Bool, true, false, not, Option, none, some, List, [], ◌∷◌, ◌++◌, ltb,
  ◌==◌, str_eq, if◌then◌else◌, length, get_elem?, keep, any, map, above, take, drop, last?,
}

pub record Incident : Type 0 where
  pub description : String
  pub severity : String
  pub category : String
  pub devices : List String
  pub count : ℕ
  pub sample_messages : List String
  pub generated_at : String

-- resolution, resolved_at, resolved_by
abbrev pub Resolution : Type 0
Resolution = Option (String × String × String)

pub record IncidentRow : Type 0 where
  pub id : ℕ
  pub incident : Incident
  pub resolution : Resolution

pub record Journal : Type 0 where
  pub rows : List IncidentRow
  pub next_id : ℕ

-- the records that are written: those with a description
abbrev pub described : List Incident → List Incident
described = keep (λ r. not (str_eq r.description ""))

-- the executemany of INSERT INTO incidents
unfoldable pub number_rows : ℕ → List Incident → List IncidentRow
number_rows id [] = []
number_rows id (r ∷ rs) =
    record { id = id; incident = r; resolution = none } ∷ number_rows (suc id) rs

-- ORDER BY id DESC LIMIT 1 OFFSET ?
pub nth_newest : ℕ → List IncidentRow → Option IncidentRow
nth_newest n rows = if ltb n (length rows) then get_elem? rows (length rows - n - 1) else none

-- DELETE FROM incidents WHERE id <= (SELECT …): with no such row nothing is deleted
pub trim : ℕ → List IncidentRow → List IncidentRow
trim cap rows = elim (nth_newest cap rows) [ none ↦ rows | some r ↦ above (λ x. x.id) r.id rows ]

-- the write of `incidents_append`, for at least one row
pub write_rows : List Incident → ℕ → Journal → Journal
write_rows rs cap j = record {
  rows = trim cap (j.rows ++ number_rows j.next_id rs);
  next_id = j.next_id + length rs;
}

-- `if not rows: return 0`, then the write
pub append_described : List Incident → ℕ → Journal → ℕ × Journal
append_described [] cap j = (0, j)
append_described (r ∷ rs) cap j = (length (r ∷ rs), write_rows (r ∷ rs) cap j)

unfoldable pub incidents_append : List Incident → ℕ → Journal → ℕ × Journal
incidents_append records cap j = append_described (described records) cap j

unfoldable pub incidents_all : ℕ → Journal → List IncidentRow
incidents_all limit j = drop (length j.rows - limit) j.rows

unfoldable pub incidents_since : ℕ → Journal → List IncidentRow
incidents_since after_id j = above (λ r. r.id) after_id j.rows

unfoldable pub incidents_count : Journal → ℕ
incidents_count j = length j.rows

-- (row count, newest id, total length of the resolutions)
pub record Version : Type 0 where
  pub rows : ℕ
  pub newest : ℕ
  pub resolved : ℕ

-- COALESCE(MAX(id), 0); ids ascend
unfoldable pub newest_id : List IncidentRow → ℕ
newest_id rows = elim (last? rows) [ none ↦ 0 | some r ↦ r.id ]

abbrev pub resolution_length : (String → ℕ) → Resolution → ℕ
resolution_length size none = 0
resolution_length size (some (text, at, by)) = size text

-- COALESCE(SUM(LENGTH(resolution)), 0)
unfoldable pub resolved_length : (String → ℕ) → List IncidentRow → ℕ
resolved_length size [] = 0
resolved_length size (r ∷ rs) = resolution_length size r.resolution + resolved_length size rs

-- `size` is SQL's LENGTH
unfoldable pub incidents_version : (String → ℕ) → Journal → Version
incidents_version size j = record {
  rows = length j.rows;
  newest = newest_id j.rows;
  resolved = resolved_length size j.rows;
}

-- the UPDATE, and whether it changed a row
unfoldable pub incidents_resolve : ℕ → String → String → String → Journal → Bool × Journal
incidents_resolve row_id resolution resolved_at resolved_by j = (
  any (λ r. r.id == row_id) j.rows,
  record j {
    rows =
        map
          (λ r.
            if r.id == row_id
            then record r { resolution = some (resolution, resolved_at, resolved_by) }
            else r)
          j.rows;
  },
)
