-- ===== src/Memory/Growth.antt =====
-- What appends do to the journal: it grows at its end, and is cut at its beginning.
use netlog_ai.Prelude.{
  ℕ, suc, ◌-◌, ◌<◌, ◌≤◌, ◌≡◌, refl, sym, ap, subst, ◌∙◌, List, [], ◌∷◌, ◌++◌, append_assoc,
  append-nil, arith, length, Ascends, Ascends-append, Ascends-lower,
}
use netlog_ai.StateStore.Incidents.{
  Incident, IncidentRow, Journal, described, number_rows, newest_id, incidents_append,
}
use netlog_ai.StateStore.Incidents.Appends.{incidents_append-extends, new_rows-Ascends}
use netlog_ai.Memory.{append_all}
use netlog_ai.Memory.Window.{newest, newest_all, length-newest-le, newest-newest_left, Ascends-drop}

abbrev pub Ordered : ℕ → ℕ → List IncidentRow → Type 0
Ordered = Ascends (λ r. r.id)

-- the table is in order, its ids start at 1, and it is cut
pub record IsReady (cap : ℕ) (j : Journal) : Type 0 where
  pub ordered : Ascends (λ r. r.id) 1 j.next_id j.rows
  pub small : length j.rows ≤ cap

-- what appends do to a table
pub record Grows (cap : ℕ) (j j' : Journal) : Type 0 where
  pub new : List IncidentRow
  pub ascends : Ordered j.next_id j'.next_id new
  pub rows : j'.rows ≡ newest cap (j.rows ++ new)

pub append-Grows :
    (records : List Incident) (cap : ℕ) (j : Journal)
    → IsReady cap j
    → Grows cap j (incidents_append records cap j).1
append-Grows records cap j v =
    let grown =
      incidents_append-extends records cap j
        (Ascends-lower (λ r. r.id) 0 1 j.next_id j.rows (omega arith) v.ordered) v.small in
    record {
      new = number_rows j.next_id (described records);
      ascends =
          subst (λ n. Ordered j.next_id n (number_rows j.next_id (described records))) (sym grown.1)
            (new_rows-Ascends records j);
      rows = grown.0;
    }

pub Grows-IsReady : (cap : ℕ) (j j' : Journal) → IsReady cap j → Grows cap j j' → IsReady cap j'
Grows-IsReady cap j j' v g = record {
  ordered = subst (Ordered 1 j'.next_id) (sym g.rows) (
      Ascends-drop (λ r. r.id) (length (j.rows ++ g.new) - cap) 1 j'.next_id (j.rows ++ g.new)
        (Ascends-append (λ r. r.id) 1 j.next_id j'.next_id j.rows g.new v.ordered g.ascends));
  small = subst (λ l. length l ≤ cap) (sym g.rows) (length-newest-le cap (j.rows ++ g.new));
}

pub Grows-trans :
    (cap : ℕ) (j j' j'' : Journal) → Grows cap j j' → Grows cap j' j'' → Grows cap j j''
Grows-trans cap j j' j'' g h = record {
  new = g.new ++ h.new;
  ascends =
      Ascends-append (λ r. r.id) j.next_id j'.next_id j''.next_id g.new h.new g.ascends h.ascends;
  rows =
      h.rows
      ∙ ap (λ l. newest cap (l ++ h.new)) g.rows
      ∙ newest-newest_left cap (j.rows ++ g.new) h.new
      ∙ ap (newest cap) (append_assoc j.rows g.new h.new);
}

Grows-refl : (cap : ℕ) (j : Journal) → IsReady cap j → Grows cap j j
Grows-refl cap j v = record {
  new = [];
  ascends = omega arith;
  rows = sym (ap (newest cap) (append-nil j.rows) ∙ newest_all cap j.rows v.small);
}

pub append_all-Grows :
    (cap : ℕ) (batches : List (List Incident)) (j : Journal)
    → IsReady cap j
    → Grows cap j (append_all cap batches j)
unfolding append_all
append_all-Grows cap [] j v = Grows-refl cap j v
append_all-Grows cap (b ∷ bs) j v =
    let j' = (incidents_append b cap j).1 in
    let g = append-Grows b cap j v in
    Grows-trans cap j j' (append_all cap bs j') g
      (append_all-Grows cap bs j' (Grows-IsReady cap j j' v g))

-- the newest id of a table that is not empty
pub newest_id-Ordered :
    (lo hi : ℕ) (r : IncidentRow) (l : List IncidentRow)
    → Ordered lo hi (r ∷ l)
    → Ordered lo (suc (newest_id (r ∷ l))) (r ∷ l)
      × (newest_id (r ∷ l) < hi)
      × (lo ≤ newest_id (r ∷ l))
unfolding newest_id
newest_id-Ordered lo hi r [] h = ((h.0, omega arith), omega (arith, h.1), h.0)
newest_id-Ordered lo hi r (q ∷ l) h =
    let (up, top, low) = newest_id-Ordered (suc r.id) hi q l h.1 in
    ((h.0, up), top, omega (arith, h.0, low))

pub newest_id-append :
    (l : List IncidentRow) (r : IncidentRow) (m : List IncidentRow)
    → newest_id (l ++ r ∷ m) ≡ newest_id (r ∷ m)
unfolding newest_id
newest_id-append [] r m = refl
newest_id-append (q ∷ []) r m = refl
newest_id-append (q ∷ p ∷ l) r m = newest_id-append (p ∷ l) r m

pub newest_id-Ready :
    (cap : ℕ) (j : Journal)
    → IsReady cap j
    → Ordered 1 (suc (newest_id j.rows)) j.rows × (newest_id j.rows < j.next_id)
newest_id-Ready cap j v = go j.rows v.ordered
  where
    go :
        (l : List IncidentRow)
        → Ordered 1 j.next_id l
        → Ordered 1 (suc (newest_id l)) l × (newest_id l < j.next_id)
    go [] h = (omega arith, unfold newest_id in omega arith)
    go (r ∷ l) h = let (up, top, low) = newest_id-Ordered 1 j.next_id r l h in (up, top)
