-- ===== src/Triage/Tick/Items.antt =====
-- The order in which a tick handles its incidents, and which these are.
use netlog_ai.Prelude.{
  ℕ, String, ◌≡◌, refl, ap, Bool, true, false, List, [], ◌∷◌, ◌++◌, arith, leb, str_eq,
  if◌then◌else◌, length, length-append, keep, keep-append, All, All-append, Dict, eq_iff, lookup,
  Mem, mem-cons_self, mem-cons_of_mem, subst, sym, inl, inr, Bool-cases, ◌∙◌,
}
use netlog_ai.Prelude.Sort.{count-sort, All-sort, IsSorted, sort-IsSorted}
use netlog_ai.Triage.Types.{Candidate, sev_rank}
use netlog_ai.Triage.Handle.{Pending, Item, fresh_item, orphan}
use netlog_ai.Triage.Handle.Incident.{candidate_of}
use netlog_ai.Triage.Tick.{is_fresh, fresh_items, orphan_items, item_leb, items}

abbrev pub rank : Item → ℕ
rank i = sev_rank (candidate_of i).severity

abbrev pub no_later : Item → Item → Bool
no_later a b = leb (rank a) (rank b)

-- whether an item is about the incident of a fingerprint
abbrev pub about : String → Item → Bool
about fp i = str_eq (candidate_of i).fingerprint fp

-- every pending row stands under the fingerprint of its candidate
abbrev pub Keyed : Dict Pending → Type 0
Keyed = All (λ row. row.1.c.fingerprint ≡ row.0)

item_leb-no_later : (a b : Item) → item_leb a b ≡ true → no_later a b ≡ true
unfolding item_leb
item_leb-no_later a b h = ground (arith, h)

not_leb-no_later : (a b : Item) → item_leb a b ≡ false → no_later b a ≡ true
unfolding item_leb
not_leb-no_later a b h = ground (arith, h)

count-fresh_items :
    (fp : String) (pending : Dict Pending) (fresh : List Candidate)
    → length (keep (about fp) (fresh_items pending fresh))
      ≡ length (keep (λ c. str_eq c.fingerprint fp) fresh)
unfolding fresh_items
count-fresh_items fp pending [] = refl
count-fresh_items fp pending (c ∷ cs) = ground (arith, count-fresh_items fp pending cs)

count-orphan_items :
    (fp : String) (fresh : List Candidate) (pending : Dict Pending)
    → Keyed pending
    → length (keep (about fp) (orphan_items fresh pending))
      ≡ (if is_fresh fresh fp then 0 else length (keep (λ row. str_eq row.0 fp) pending))
unfolding orphan_items
count-orphan_items fp fresh [] h = ground arith
count-orphan_items fp fresh ((key, p) ∷ l) h =
    ground (arith, count-orphan_items fp fresh l h.1, h.0, eq_iff key fp)

-- a fingerprint that is not among the new ones counts none of them
count-none :
    (fp : String) (fresh : List Candidate)
    → is_fresh fresh fp ≡ false
    → length (keep (λ c. str_eq c.fingerprint fp) fresh) ≡ 0
unfolding is_fresh
count-none fp [] h = refl
count-none fp (c ∷ cs) h = ground (arith, h, count-none fp cs)

-- an item carries the pending row of its incident: one that is new to the tick the row that is found under
-- its fingerprint, if there is one, and one that is only pending a row of its own that is pending, and is
-- not new
abbrev pub HasRow : List Candidate → Dict Pending → Item → Type 0
HasRow fresh pending (fresh_item c row) = row ≡ lookup c.fingerprint pending
HasRow fresh pending (orphan p) =
    (is_fresh fresh p.c.fingerprint ≡ false) × Mem (p.c.fingerprint, p) pending

fresh_items-HasRow :
    (fresh : List Candidate) (pending : Dict Pending) (cs : List Candidate)
    → All (HasRow fresh pending) (fresh_items pending cs)
unfolding fresh_items
fresh_items-HasRow fresh pending [] = tt
fresh_items-HasRow fresh pending (c ∷ cs) = (refl, fresh_items-HasRow fresh pending cs)

orphan_items-HasRow :
    (fresh : List Candidate) (pending rows : Dict Pending)
    → Keyed rows
    → ((row : String × Pending) → Mem row rows → Mem row pending)
    → All (HasRow fresh pending) (orphan_items fresh rows)
unfolding orphan_items
orphan_items-HasRow fresh pending [] h within = tt
orphan_items-HasRow fresh pending ((fp, p) ∷ rows) h within =
    let own : Mem (p.c.fingerprint, p) pending =
      subst (λ key. Mem (key, p) pending) (sym h.0) (within (fp, p) mem-cons_self) in
    let rest =
      orphan_items-HasRow fresh pending rows h.1
        (λ row m. within row (mem-cons_of_mem (fp, p) m)) in
    elim (Bool-cases (is_fresh fresh fp)) [
      | inl e ↦ rw (e, All, orphan_items) rest
      | inr e ↦ rw (e, All, orphan_items) ((ap (is_fresh fresh) h.0 ∙ e, own), rest)
    ]

-- A tick handles its incidents most severe first. When the pending rows stand under the fingerprints of
-- their candidates, every incident that is new to the tick is handled as often as it is among the new
-- ones, and one that is only pending as often as it has a row. A new incident is handled with the pending
-- row found under its fingerprint, or with none where there is none, and an incident handled only for its
-- row carries a pending row of its own and is not among the new ones.
pub items_lem :
    (fresh : List Candidate) (pending : Dict Pending)
    → Keyed pending
    → IsSorted no_later (items fresh pending)
      × ((fp : String)
          → length (keep (about fp) (items fresh pending)) ≡ (
              if is_fresh fresh fp
              then length (keep (λ c. str_eq c.fingerprint fp) fresh)
              else length (keep (λ row. str_eq row.0 fp) pending)))
      × All (HasRow fresh pending) (items fresh pending)
unfolding items
items_lem fresh pending h =
    let both = fresh_items pending fresh ++ orphan_items fresh pending in
    (
      sort-IsSorted item_leb no_later item_leb-no_later not_leb-no_later (λ a b c h k. ground arith)
          both,
      λ fp.
          let sorted = count-sort item_leb (about fp) both in
          let split =
            ap length
              (keep-append (about fp) (fresh_items pending fresh) (orphan_items fresh pending)) in
          let sum =
            length-append (keep (about fp) (fresh_items pending fresh))
              (keep (about fp) (orphan_items fresh pending)) in
          let rest = count-orphan_items fp fresh pending h in
          let own = count-fresh_items fp pending fresh in
          ground (arith, sorted, split, sum, rest, own, count-none fp fresh),
      All-sort item_leb (HasRow fresh pending) both (
          All-append (HasRow fresh pending) (fresh_items pending fresh) (orphan_items fresh pending)
            (fresh_items-HasRow fresh pending fresh)
            (orphan_items-HasRow fresh pending pending h (λ row m. m))),
    )
