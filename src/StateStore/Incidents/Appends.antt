-- ===== src/StateStore/Incidents/Appends.antt =====
-- What an append keeps of the journal, and what a reader of new rows sees.
use netlog_ai.Prelude.{
  ℕ, zero, suc, ◌+◌, ◌-◌, ◌<◌, ◌≤◌, ◌⊎◌, append-nil, ◌≡◌, refl, sym, ◌∙◌, ap, subst, none, some,
  List, [], ◌∷◌, ◌++◌, arith, length, drop, get_elem?, get_elem?-some, Ascends, Ascends-append,
  Ascends-keep, above, above-get_elem?, ltb, inl, inr, Bool-cases, Option, if◌then◌else◌,
}
use netlog_ai.StateStore.Incidents.{
  Incident, IncidentRow, Journal, described, number_rows, nth_newest, trim, write_rows,
  append_described, incidents_append,
}

-- ids ascend strictly and stay below the next one
abbrev pub IsOrdered : Journal → Type 0
IsOrdered j = Ascends (λ r. r.id) 0 j.next_id j.rows

number_rows-Ascends :
    (id : ℕ) (rs : List Incident) → Ascends (λ r. r.id) id (id + length rs) (number_rows id rs)
unfolding number_rows
number_rows-Ascends id [] = omega arith
number_rows-Ascends id (r ∷ rs) = (
  omega arith,
  subst (λ n. Ascends (λ r. r.id) (suc id) n (number_rows (suc id) rs)) (omega arith)
      (number_rows-Ascends (suc id) rs),
)

length-number_rows : (id : ℕ) (rs : List Incident) → length (number_rows id rs) ≡ length rs
unfolding number_rows
length-number_rows id [] = refl
length-number_rows id (r ∷ rs) = ap suc (length-number_rows (suc id) rs)

nth_newest_lem :
    (n : ℕ) (l : List IncidentRow)
    → nth_newest n l ≡ (if ltb n (length l) then get_elem? l (length l - n - 1) else none)
unfolding nth_newest
nth_newest_lem n l = refl

trim_newest :
    (cap lo hi : ℕ) (l : List IncidentRow)
    → Ascends (λ r. r.id) lo hi l
    → trim cap l ≡ drop (length l - cap) l
unfolding trim
trim_newest cap lo hi l h = elim (Bool-cases (ltb cap (length l))) [
  | inl more ↦
      let (r, at) = get_elem?-some l (length l - cap - 1) (ground arith) in
      let same : suc (length l - cap - 1) ≡ length l - cap = ground arith in
      let found : nth_newest cap l ≡ some r = rw (nth_newest_lem, more) at in
      rw (found, trim)
        (subst (λ n. above (λ r. r.id) r.id l ≡ drop n l) same
          (above-get_elem? (λ r. r.id) lo hi (length l - cap - 1) l r h at))
  | inr fits ↦
      let none_over : length l - cap ≡ 0 = ground arith in
      let nothing : nth_newest cap l ≡ none = rw (nth_newest_lem, fits) in
      rw (nothing, trim, none_over)
]

trim-Ascends :
    (cap lo hi : ℕ) (l : List IncidentRow)
    → Ascends (λ r. r.id) lo hi l
    → Ascends (λ r. r.id) lo hi (trim cap l)
unfolding trim
trim-Ascends cap lo hi l h = go (nth_newest cap l)
  where
    go :
        (o : Option IncidentRow)
        → Ascends (λ r. r.id) lo hi (elim o [ none ↦ l | some r ↦ above (λ x. x.id) r.id l ])
    go none = h
    go (some r) = Ascends-keep (λ r. r.id) _ lo hi l h

-- the journal and the new rows, before the cut
abbrev pub extended : List Incident → Journal → List IncidentRow
extended records j = j.rows ++ number_rows j.next_id (described records)

empty_of_length : (l : List Incident) → length l ≡ 0 → l ≡ []
empty_of_length [] h = refl
empty_of_length (r ∷ rs) h = absurd (omega arith)

some_or_none : (n : ℕ) → (n ≡ 0) ⊎ (0 < n)
some_or_none zero = inl refl
some_or_none (suc n) = inr (omega arith)

module _ (records : List Incident) (cap : ℕ) (j : Journal) (ordered : IsOrdered j) where
  extended-Ascends :
      Ascends (λ r. r.id) 0 (j.next_id + length (described records)) (extended records j)
  extended-Ascends =
      Ascends-append (λ r. r.id) 0 j.next_id _ j.rows (number_rows j.next_id (described records))
        ordered (number_rows-Ascends j.next_id (described records))

  write_some :
      (new : List Incident)
      → 0 < length new
      → append_described new cap j ≡ (length new, write_rows new cap j)
  unfolding append_described
  write_some [] h = absurd (omega arith)
  write_some (r ∷ rs) h = refl

  -- An append of records of which at least one has a description returns their number, and leaves the
  -- newest `cap` of the journal's rows and the described records, numbered on, in order.
  pub incidents_append-window :
      0 < length (described records)
      → ((incidents_append records cap j).0 ≡ length (described records))
        × ((incidents_append records cap j).1.rows
            ≡ drop (length (extended records j) - cap) (extended records j))
        × IsOrdered (incidents_append records cap j).1
  unfolding write_rows incidents_append
  incidents_append-window h =
      rw (write_some, h)
        (
          refl,
          trim_newest cap 0 (j.next_id + length (described records)) (extended records j)
              extended-Ascends,
          trim-Ascends cap 0 (j.next_id + length (described records)) (extended records j)
              extended-Ascends,
        )

  none_described : (l : List Incident) → length l ≡ 0 → append_described l cap j ≡ (0, j)
  unfolding append_described
  none_described [] h = refl
  none_described (r ∷ rs) h = absurd (omega arith)

  -- what an append does to the table, whatever its records are
  pub incidents_append-extends :
      length j.rows ≤ cap
      → ((incidents_append records cap j).1.rows
          ≡ drop (length (extended records j) - cap) (extended records j))
        × ((incidents_append records cap j).1.next_id ≡ j.next_id + length (described records))
  unfolding incidents_append write_rows
  incidents_append-extends small = elim (some_or_none (length (described records))) [
    | inl h ↦
        let gone : extended records j ≡ j.rows =
          ap (λ l. j.rows ++ number_rows j.next_id l) (empty_of_length (described records) h)
          ∙ unfold number_rows in append-nil j.rows in
        let uncut : length j.rows - cap ≡ 0 = omega arith in
        rw (none_described (described records) h) (
          subst (λ l. j.rows ≡ drop (length l - cap) l) (sym gone) (rw uncut refl),
          omega (arith, h),
        )
    | inr h ↦ rw (write_some (described records) h) (
      trim_newest cap 0 (j.next_id + length (described records)) (extended records j)
          extended-Ascends,
      refl,
    )
  ]

pub new_rows-Ascends :
    (records : List Incident) (j : Journal)
    → Ascends
        (λ r. r.id)
        j.next_id
        (j.next_id + length (described records))
        (number_rows j.next_id (described records))
new_rows-Ascends records j = number_rows-Ascends j.next_id (described records)
