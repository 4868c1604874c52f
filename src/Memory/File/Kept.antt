-- ===== src/Memory/File/Kept.antt =====
-- About the writes of several workers to one file (`IncidentStore._persist`).
use netlog_ai.Prelude.{
  All-append, zero, suc, ℕ, ◌+◌, ◌-◌, ◌≤◌, ◌≡◌, refl, sym, ap, subst, ◌∙◌, false, Option, none,
  some, List, [], ◌∷◌, ◌++◌, append_assoc, append-nil, arith, ltb, str_eq, length, length-append,
  map, drop, All, inl, inr, Bool-cases,
}
use netlog_ai.StateStore.Incidents.{Incident}
use netlog_ai.Memory.Window.{newest_all, length-newest-le, newest-newest_left}
use netlog_ai.Memory.File.{
  File, read_lines, read_file, to_line, append_lines, newest, persist, persist_all,
}

abbrev pub Described : List Incident → Type 0
Described = All (λ r. str_eq r.description "" ≡ false)

read_lines-append :
    (f : List (Option Incident)) (new : List Incident)
    → Described new
    → read_lines (f ++ map to_line new) ≡ read_lines f ++ new
read_lines-append [] [] h = refl
read_lines-append [] (r ∷ rs) h = rw h.0 (ap (λ l. r ∷ l) (read_lines-append [] rs h.1))
read_lines-append (none ∷ f) new h = read_lines-append f new h
read_lines-append (some r ∷ f) new h = ap (λ l. r ∷ l) (read_lines-append f new h)

read_lines-Described : (l : List Incident) → Described l → read_lines (map to_line l) ≡ l
read_lines-Described l h = read_lines-append [] l h

-- a file that ends with a newline, and none of whose lines gives a record without a description
pub record IsWhole (f : File) : Type 0 where
  pub ends : f.tail ≡ none
  pub described : Described (read_file f)

read_file-lines : (f : File) → f.tail ≡ none → read_file f ≡ read_lines f.lines
unfolding read_file
read_file-lines f e = rw (e, read_file) refl

append_lines-file :
    (new : List Incident) (f : File)
    → f.tail ≡ none
    → Described new
    → (read_file (append_lines new f) ≡ read_file f ++ new) × ((append_lines new f).tail ≡ none)
unfolding append_lines
append_lines-file [] f e h = (sym (append-nil (read_file f)), e)
append_lines-file (r ∷ rs) f e h =
    let grown : File = record { lines = f.lines ++ map to_line (r ∷ rs); tail = none } in
    let same : append_lines (r ∷ rs) f ≡ grown = unfold append_lines in rw (e, append_lines) refl in
    (
      ap read_file same
          ∙ read_file-lines grown refl
          ∙ read_lines-append f.lines (r ∷ rs) h
          ∙ ap (λ l. l ++ r ∷ rs) (sym (read_file-lines f e)),
      ap (λ f. f.tail) same,
    )

All-drop : (n : ℕ) (l : List Incident) → Described l → Described (drop n l)
All-drop zero l h = h
All-drop (suc n) [] h = tt
All-drop (suc n) (r ∷ l) h = All-drop n l h.1

-- A worker whose write does not fail has in memory afterwards what the file then holds, and this is what
-- the file held, with the new records at its end, cut to the newest; records that others wrote since the
-- worker read the file are among them, and lines that give no record are passed over.
persist-file :
    (cap : ℕ) (new records : List Incident) (f : File)
    → IsWhole f
    → Described new
    → (read_file (persist cap false new records f).1 ≡ newest cap (read_file f ++ new))
      × ((persist cap false new records f).0 ≡ newest cap (read_file f ++ new))
      × ((persist cap false new records f).1.tail ≡ none)
unfolding persist
persist-file cap new records f whole h =
    elim (Bool-cases (ltb cap (length (read_file f) + length new))) [
      | inl over ↦
          let merged = read_file f ++ new in
          rw (over, persist)
            (
              unfold read_file in
                  read_lines-Described (newest cap merged) (
                    All-drop (length merged - cap) merged
                      (All-append _ (read_file f) new whole.described h)),
              refl,
              refl,
            )
      | inr fits ↦
          let small : length (read_file f ++ new) ≤ cap =
            ground (arith, fits, length-append (read_file f) new) in
          let all = sym (newest_all cap (read_file f ++ new) small) in
          let (held, ends) = append_lines-file new f whole.ends h in
          rw (fits, persist) (held ∙ all, all, ends)
    ]

-- what the workers write, in the order in which they write
abbrev pub joined : List (List Incident × List Incident) → List Incident
joined [] = []
joined ((records, new) ∷ l) = new ++ joined l

-- A journal on a file that ends with a newline and is within its bound keeps, after any number of writes by workers whose copies in
-- memory are as old as may be, the newest records of all that it held and that were written, in the
-- order of the writes: no worker's write drops those of another, unless they are too old for the bound.
pub persist_all-keeps :
    (cap : ℕ) (l : List (List Incident × List Incident)) (f : File)
    → IsWhole f
    → length (read_file f) ≤ cap
    → All (λ w. Described w.1) l
    → read_file (persist_all cap l f) ≡ newest cap (read_file f ++ joined l)
unfolding persist_all
persist_all-keeps cap [] f whole small h =
    sym (ap (newest cap) (append-nil (read_file f)) ∙ newest_all cap (read_file f) small)
persist_all-keeps cap ((records, new) ∷ l) f whole small h =
    let f' = (persist cap false new records f).1 in
    let (held, _, ends) = persist-file cap new records f whole h.0 in
    let all = read_file f ++ new in
    persist_all-keeps cap l f'
      (record {
        ends = ends;
        described =
            subst Described (sym held) (
              All-drop (length all - cap) all (All-append _ (read_file f) new whole.described h.0));
      })
      (omega (arith, ap length held, length-newest-le cap all)) h.1
    ∙ ap (λ r. newest cap (r ++ joined l)) held
    ∙ newest-newest_left cap all (joined l)
    ∙ ap (newest cap) (append_assoc (read_file f) new (joined l))
