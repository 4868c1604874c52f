-- ===== src/Memory/File.antt =====
-- `IncidentStore`: the journal on a JSONL file. A line is `none` when it gives no record: it is blank, torn, no
-- object, or has no description. Reading and writing under the lock are one step.
pub mod Kept
mod Examples
use netlog_ai.Prelude.{
  ℕ, ◌+◌, ◌-◌, String, Bool, true, false, Option, none, some, List, [], ◌∷◌, ◌++◌, ltb, str_eq,
  if◌then◌else◌, length, map, drop,
}
use netlog_ai.StateStore.Incidents.{Incident}

-- the lines that end with a newline, and what stands after the last newline, if anything does
pub record File : Type 0 where
  pub lines : List (Option Incident)
  pub tail : Option (Option Incident)

abbrev pub read_lines : List (Option Incident) → List Incident
read_lines [] = []
read_lines (none ∷ ls) = read_lines ls
read_lines (some r ∷ ls) = r ∷ read_lines ls

-- `_read_file`
pub read_file : File → List Incident
read_file f = elim f.tail [
  | none ↦ read_lines f.lines
  | some last ↦ read_lines (f.lines ++ last ∷ [])
]

-- json.dumps(r), as it will be read
abbrev pub to_line : Incident → Option Incident
to_line r = if str_eq r.description "" then none else some r

-- fh.write("".join(json.dumps(r) + "\n" for r in new)): the first record goes on the line that has no end, and
-- that line then gives none
pub append_lines : List Incident → File → File
append_lines [] f = f
append_lines (r ∷ rs) f = elim f.tail [
  | none ↦ record { lines = f.lines ++ map to_line (r ∷ rs); tail = none }
  | some last ↦ record { lines = f.lines ++ none ∷ map to_line rs; tail = none }
]

-- the file that is written anew, each line with its newline
abbrev pub rewritten : List Incident → File
rewritten l = record { lines = map to_line l; tail = none }

-- records[-_MAX_RECORDS:]
abbrev pub newest : ℕ → List Incident → List Incident
newest cap l = drop (length l - cap) l

-- `_load`
pub load : ℕ → File → List Incident
load cap file = newest cap (read_file file)

-- `_persist`: the records in memory and the file; `fails` is an OSError before the file is written
pub persist : ℕ → Bool → List Incident → List Incident → File → List Incident × File
persist cap fails new records file =
    let on_disk = read_file file in
    let merged = newest cap (on_disk ++ new) in
    if fails
    then (newest cap (records ++ new), file)
    else if ltb cap (length on_disk + length new)
    then (merged, rewritten merged)
    else (on_disk ++ new, append_lines new file)

-- what workers write, one after the other; each has records of its own in memory
pub persist_all : ℕ → List (List Incident × List Incident) → File → File
persist_all cap [] file = file
persist_all cap ((records, new) ∷ l) file = persist_all cap l (persist cap false new records file).1
