-- ===== src/Triage/Window/Thins.antt =====
-- About the duplicates that `_process` drops, with a reference that is written for one key and its arrivals alone.
use netlog_ai.Prelude.{
  ℕ, suc, ◌+◌, ◌≡◌, refl, sym, ap, ◌∙◌, String, Bool, true, false, ◌&&◌, Option, none, some, List,
  [], ◌∷◌, ◌++◌, append_assoc, append-nil, arith, leb, ltb, if◌then◌else◌, inl, inr, Bool-cases,
  Option-cases, Pair, PairDict, pair_eq, pair_eq_iff, get_pair, get_pair-set_pair,
}
use netlog_ai.StateStore.Spool.{Row}
use netlog_ai.Triage.Window.{
  Event, Target, of_batch, of_window, unseen, Seen, Kept, Window, Batch, bump_kept, bump, key_of,
  keep_event, drop_event, admit, event_of, take_row, take_rows,
}

-- the times of the events of a key, of those that are kept
abbrev pub stamps_of : Pair → List Kept → List ℕ
stamps_of k [] = []
stamps_of k (e ∷ es) =
    let rest = stamps_of k es in if pair_eq (key_of e.event) k then e.stamp ∷ rest else rest

abbrev pub first_of : Option Seen → Option ℕ
first_of none = none
first_of (some s) = some s.first_at

abbrev last_kept_in : Pair → PairDict Seen → Option ℕ
last_kept_in k m = first_of (get_pair k m)

-- when the last copy was kept
abbrev pub last_kept : Pair → Window → Option ℕ
last_kept k w = last_kept_in k w.recent

-- an arrival that is no duplicate of the copy that was kept last
abbrev pub is_new : ℕ → ℕ → Option ℕ → Bool
is_new dedup_s at none = true
is_new dedup_s at (some last) = ltb (last + dedup_s) at

-- the arrivals that are more than `dedup_s` after the one that was kept last
abbrev pub thin : ℕ → Option ℕ → List ℕ → List ℕ
thin dedup_s last [] = []
thin dedup_s last (at ∷ l) =
    let kept = thin dedup_s (some at) l in
    let same = thin dedup_s last l in if is_new dedup_s at last then at ∷ kept else same

stamps_of-bump_kept :
    (k : Pair) (n at : ℕ) (l : List Kept) → stamps_of k (bump_kept n at l) ≡ stamps_of k l
unfolding bump_kept
stamps_of-bump_kept k n at [] = refl
stamps_of-bump_kept k n at (e ∷ es) = ground (arith, stamps_of-bump_kept k n at es)

stamps_of-bump :
    (k : Pair) (t : Target) (at : ℕ) (b : Batch)
    → (stamps_of k (bump t at b).kept ≡ stamps_of k b.kept)
      × ((bump t at b).window.recent ≡ b.window.recent)
unfolding bump
stamps_of-bump k (of_batch n) at b = (stamps_of-bump_kept k n at b.kept, refl)
stamps_of-bump k (of_window n) at b = (refl, refl)
stamps_of-bump k unseen at b = (refl, refl)

stamps_of-snoc :
    (k : Pair) (l : List Kept) (e : Kept)
    → stamps_of k (l ++ e ∷ [])
      ≡ stamps_of k l ++ (if pair_eq (key_of e.event) k then e.stamp ∷ [] else [])
stamps_of-snoc k [] e = ground arith
stamps_of-snoc k (x ∷ l) e = ground (arith, stamps_of-snoc k l e)

-- what becomes of a key when an arrival of another, or of itself, is kept or not
record After (k : Pair) (at : ℕ) (ev : Event) (kept : Bool) (b b' : Batch) : Type 0 where
  stamps :
      stamps_of k b'.kept
      ≡ stamps_of k b.kept ++ (if pair_eq (key_of ev) k && kept then at ∷ [] else [])
  last :
      last_kept k b'.window
      ≡ (if pair_eq (key_of ev) k && kept then some at else last_kept k b.window)

keep_event-After :
    (at : ℕ) (ev : Event) (b : Batch) (k : Pair) → After k at ev true b (keep_event at ev b)
unfolding keep_event
keep_event-After at ev b k =
    let e : Kept = record {
      number = b.window.next_number;
      stamp = at;
      event = ev;
      extra = 0;
      last_at = 0;
    } in
    let s : Seen = record { first_at = at; target = of_batch b.window.next_number } in
    let set = get_pair-set_pair (key_of ev) k s b.window.recent in
    record { stamps = ground (arith, stamps_of-snoc k b.kept e); last = ground (arith, set) }

drop_event-After :
    (at : ℕ) (ev : Event) (seen : Seen) (b : Batch) (k : Pair)
    → After k at ev false b (drop_event at seen b)
unfolding drop_event
drop_event-After at ev seen b k =
    let w = record b.window { duplicates_dropped = suc b.window.duplicates_dropped } in
    let (same, recent) = stamps_of-bump k seen.target at (record b { window = w }) in
    record {
      stamps = ground (arith, same, append-nil (stamps_of k b.kept));
      last = ground (arith, ap (λ m. last_kept_in k m) recent);
    }

admit-After :
    (dedup_s at : ℕ) (ev : Event) (b : Batch) (k : Pair)
    → After k at ev (is_new dedup_s at (last_kept (key_of ev) b.window)) b (admit dedup_s at ev b)
unfolding admit
admit-After dedup_s at ev b k = elim (Option-cases (get_pair (key_of ev) b.window.recent)) [
  | inl e ↦ rw (e, admit, last_kept) (keep_event-After at ev b k)
  | inr (seen, e) ↦ elim (Bool-cases (leb at (seen.first_at + dedup_s))) [
    | inl dup ↦
        let old : ltb (seen.first_at + dedup_s) at ≡ false = ground (arith, dup) in
        rw (e, admit, last_kept, dup, old) (drop_event-After at ev seen b k)
    | inr later ↦
        let new : ltb (seen.first_at + dedup_s) at ≡ true = ground (arith, later) in
        rw (e, admit, last_kept, later, new) (keep_event-After at ev b k)
  ]
]

module _ (parse : String → String → Option Event) (dedup_s horizon : ℕ) (k : Pair) where
  abbrev arrival : ℕ → Option Event → List ℕ → List ℕ
  arrival at none rest = rest
  arrival at (some ev) rest = if pair_eq (key_of ev) k then at ∷ rest else rest

  -- the times of the rows of a key that are not too old
  abbrev pub arrivals : List Row → List ℕ
  arrivals [] = []
  arrivals (r ∷ rs) =
      let rest = arrivals rs in
      if ltb r.received_at horizon then rest else arrival r.received_at (event_of parse r) rest

  -- one more arrival, of this key or of another
  stamps_of-After :
      (at : ℕ) (ev : Event) (b b' : Batch) (l : List ℕ)
      → After k at ev (is_new dedup_s at (last_kept (key_of ev) b.window)) b b'
      → stamps_of k b'.kept ++ thin dedup_s (last_kept k b'.window) l
        ≡ stamps_of k b.kept ++ thin dedup_s (last_kept k b.window) (arrival at (some ev) l)
  stamps_of-After at ev b b' l a = elim (Bool-cases (pair_eq (key_of ev) k)) [
    | inl e ↦
        let same : is_new dedup_s at (last_kept (key_of ev) b.window)
            ≡ is_new dedup_s at (last_kept k b.window) =
          ap (λ j. is_new dedup_s at (last_kept j b.window)) ((pair_eq_iff (key_of ev) k).0 e) in
        elim (Bool-cases (is_new dedup_s at (last_kept k b.window))) [
          | inl new ↦
              let stamps : stamps_of k b'.kept ≡ stamps_of k b.kept ++ at ∷ [] =
                ground (arith, a.stamps, e, same, new) in
              let last : last_kept k b'.window ≡ some at = ground (arith, a.last, e, same, new) in
              rw (stamps, last, e, thin, new)
                (append_assoc (stamps_of k b.kept) (at ∷ []) (thin dedup_s (some at) l))
          | inr dup ↦
              let stamps : stamps_of k b'.kept ≡ stamps_of k b.kept =
                ground (arith, a.stamps, e, same, dup, append-nil (stamps_of k b.kept)) in
              let last : last_kept k b'.window ≡ last_kept k b.window =
                ground (arith, a.last, e, same, dup) in
              rw (stamps, last, e, thin, dup) refl
        ]
    | inr e ↦
        let stamps : stamps_of k b'.kept ≡ stamps_of k b.kept =
          ground (arith, a.stamps, e, append-nil (stamps_of k b.kept)) in
        let last : last_kept k b'.window ≡ last_kept k b.window = ground (arith, a.last, e) in
        rw (stamps, last, e) refl
  ]

  take_rows-thin :
      (rs : List Row) (b : Batch)
      → stamps_of k (take_rows parse dedup_s horizon rs b).kept
        ≡ stamps_of k b.kept ++ thin dedup_s (last_kept k b.window) (arrivals rs)
  unfolding take_rows take_row
  take_rows-thin [] b = sym (append-nil (stamps_of k b.kept))
  take_rows-thin (r ∷ rs) b = elim (Bool-cases (ltb r.received_at horizon)) [
    | inl old ↦ rw (old, take_rows, arrivals) (take_rows-thin rs b)
    | inr recent ↦ elim (Option-cases (event_of parse r)) [
      | inl e ↦ rw (recent, take_rows, arrivals, e) (take_rows-thin rs b)
      | inr (ev, e) ↦
          let b' = admit dedup_s r.received_at ev b in
          rw (recent, take_rows, arrivals, e)
            (take_rows-thin rs b'
              ∙ stamps_of-After r.received_at ev b b' (arrivals rs)
                  (admit-After dedup_s r.received_at ev b k))
    ]
  ]

  -- Of the rows of a batch that are not too old and that the parsers read, the copies of a message of one
  -- host that are kept are, in order, those that arrive more than `dedup_s` after the copy that was kept
  -- last: this is one of this batch or, before the first of these, the one that the window remembers at the
  -- start of the batch, if it remembers one. What other hosts or messages do makes no difference.
  pub take_rows-thins :
      (rs : List Row) (w : Window)
      → stamps_of k (take_rows parse dedup_s horizon rs (record { kept = []; window = w })).kept
        ≡ thin dedup_s (last_kept k w) (arrivals rs)
  take_rows-thins rs w = take_rows-thin rs (record { kept = []; window = w })
