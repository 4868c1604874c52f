-- ===== src/Memory/Coherence.antt =====
-- A store's copy of the journal, while several workers append to it.
use mathlib.Core.Option.{some-injective}
use netlog_ai.Prelude.{
  ℕ, suc, ◌+◌, ◌-◌, ◌<◌, ◌≤◌, String, ◌≡◌, refl, sym, ap, subst, ◌∙◌, true, Option, none, some,
  List, [], ◌∷◌, ◌++◌, append-nil, arith, length, length-drop, drop, ==_iff, Ascends-lower, inl,
  inr, Bool-cases, above,
}
use netlog_ai.StateStore.Incidents.{
  IncidentRow, Journal, Version, newest_id, resolved_length, incidents_version, incidents_all,
  incidents_since,
}
use netlog_ai.Memory.{Store, is_current, Fault, no_fault, version_fails, rows_fail, load, refresh}
use netlog_ai.Memory.Window.{
  newest, newest_all, newest-newest_right, newest-append, above-newest, Ascends-drop, Ascends-below,
}
use netlog_ai.Memory.Growth.{
  Ordered, IsReady, Grows, Grows-IsReady, newest_id-Ready, newest_id-append, newest_id-Ordered,
}

module _ (size : String → ℕ) (cap : ℕ) (positive : 0 < cap) where
  -- what a store knows of the journal: a version that is not the present one, or the newest rows
  pub record IsCoherent (s : Store) (j : Journal) : Type 0 where
    pub ready : IsReady cap j
    pub past : (v : Version) → s.version ≡ some v → v.newest < j.next_id
    pub honest :
        is_current s.version (incidents_version size j) ≡ true → s.recs ≡ incidents_all cap j

  pub incidents_all-Ready : (j : Journal) → IsReady cap j → incidents_all cap j ≡ j.rows
  unfolding incidents_all
  incidents_all-Ready j v = newest_all cap j.rows v.small

  newest_id-last :
      (lo hi : ℕ) (first later : List IncidentRow)
      → 0 < length later
      → Ordered lo hi later
      → lo ≤ newest_id (first ++ later)
  newest_id-last lo hi first [] h o = absurd (omega arith)
  newest_id-last lo hi first (r ∷ l) h o =
      omega (arith, newest_id-append first r l, (newest_id-Ordered lo hi r l o).2)

  -- ids of rows that are new are above all that were seen
  newest_id-new :
      (j j' : Journal) (r : IncidentRow) (l : List IncidentRow)
      → Ordered j.next_id j'.next_id (r ∷ l)
      → j'.rows ≡ newest cap (j.rows ++ r ∷ l)
      → j.next_id ≤ newest_id j'.rows
  newest_id-new j j' r l ascends rows =
      let later = newest cap (r ∷ l) in
      let cut = length j.rows + length (r ∷ l) - cap in
      let any_left : 0 < length later =
        omega (arith, positive, length-drop (length (r ∷ l) - cap) (r ∷ l)) in
      subst (λ t. j.next_id ≤ newest_id t) (sym (rows ∙ newest-append cap j.rows (r ∷ l)))
        (newest_id-last j.next_id j'.next_id (drop cut j.rows) later any_left
          (Ascends-drop (λ x. x.id) (length (r ∷ l) - cap) j.next_id j'.next_id (r ∷ l) ascends))

  is_current-newest :
      (o : Option Version) (v : Version)
      → is_current o v ≡ true
      → (w : Version) × (o ≡ some w) × (w.newest ≡ v.newest)
  unfolding is_current
  is_current-newest none v h = absurd (ground arith)
  is_current-newest (some w) v h = (w, refl, ground (arith, ==_iff w.newest v.newest))

  version-cong :
      (j j' : Journal) → j'.rows ≡ j.rows → incidents_version size j' ≡ incidents_version size j
  unfolding incidents_version
  version-cong j j' e =
      ap (λ l. record { rows = length l; newest = newest_id l; resolved = resolved_length size l })
        e

  -- a journal that grows leaves a store as it is: it knows an older version, or nothing was added
  pub Grows-IsCoherent :
      (s : Store) (j j' : Journal) → IsCoherent s j → Grows cap j j' → IsCoherent s j'
  Grows-IsCoherent s j j' v g = grown g.new g.ascends g.rows
    where
      ready : IsReady cap j'
      ready = Grows-IsReady cap j j' v.ready g

      past : (w : Version) → s.version ≡ some w → w.newest < j'.next_id
      past w e =
          omega (arith, v.past w e, Ascends-below (λ x. x.id) j.next_id j'.next_id g.new g.ascends)

      grown :
          (new : List IncidentRow)
          → Ordered j.next_id j'.next_id new
          → j'.rows ≡ newest cap (j.rows ++ new)
          → IsCoherent s j'
      grown [] ascends rows = record {
        ready = ready;
        past = past;
        honest = λ h.
            let same =
              rows ∙ ap (newest cap) (append-nil j.rows) ∙ newest_all cap j.rows v.ready.small in
            v.honest (ap (is_current s.version) (sym (version-cong j j' same)) ∙ h)
            ∙ incidents_all-Ready j v.ready
            ∙ sym same
            ∙ sym (incidents_all-Ready j' ready);
      }
      grown (r ∷ l) ascends rows = record {
        ready = ready;
        past = past;
        honest = λ h.
            let (w, known, e) = is_current-newest s.version (incidents_version size j') h in
            absurd (
              unfold incidents_version in
              omega (arith, v.past w known, e, newest_id-new j j' r l ascends rows));
      }

  -- a store that has just read the journal
  pub current-IsCoherent :
      (j : Journal) (recs : List IncidentRow)
      → IsReady cap j
      → recs ≡ incidents_all cap j
      → IsCoherent (record { recs = recs; version = some (incidents_version size j) }) j
  current-IsCoherent j recs ready e = record {
    ready = ready;
    past = λ v known.
        subst (λ w. w.newest < j.next_id) (some-injective _ _ known)
          (unfold incidents_version in (newest_id-Ready cap j ready).1);
    honest = λ h. e;
  }

  pub load-IsCoherent :
      (fault : Fault) (j j' : Journal) (s : Store)
      → IsCoherent s j
      → Grows cap j j'
      → IsCoherent (load size cap fault j j' s) j'
  unfolding load
  load-IsCoherent no_fault j j' s v g =
      let known : Store = record {
        recs = incidents_all cap j;
        version = some (incidents_version size j);
      } in
      let later =
        Grows-IsCoherent known j j' (current-IsCoherent j (incidents_all cap j) v.ready refl) g in
      record { ready = later.ready; past = later.past; honest = λ h. refl }
  load-IsCoherent version_fails j j' s v g = Grows-IsCoherent s j j' v g
  load-IsCoherent rows_fail j j' s v g = Grows-IsCoherent s j j' v g

  pub refresh-IsCoherent :
      (fault : Fault) (j j' : Journal) (s : Store)
      → IsCoherent s j
      → Grows cap j j'
      → IsCoherent (refresh size cap fault j j' s) j'
  unfolding refresh
  refresh-IsCoherent version_fails j j' s v g = Grows-IsCoherent s j j' v g
  refresh-IsCoherent fault j j' s v g =
      elim (Bool-cases (is_current s.version (incidents_version size j))) [
        | inl e ↦ rw (e, refresh) (Grows-IsCoherent s j j' v g)
        | inr e ↦ rw (e, refresh) (load-IsCoherent fault j j' s v g)
      ]

  -- the rows of a journal that has grown, from those that were read before and those that are new
  pub extended_rows :
      (j j' : Journal) (recs : List IncidentRow)
      → IsReady cap j
      → Grows cap j j'
      → recs ≡ j.rows
      → newest cap (recs ++ incidents_since (newest_id recs) j') ≡ incidents_all cap j'
  unfolding incidents_since
  extended_rows j j' recs ready g e =
      let (old, top) = newest_id-Ready cap j ready in
      let last = newest_id j.rows in
      let new : Ordered (suc last) j'.next_id g.new =
        Ascends-lower (λ x. x.id) (suc last) j.next_id j'.next_id g.new top g.ascends in
      ap (λ l. newest cap (l ++ above (λ x. x.id) (newest_id l) j'.rows)) e
      ∙ ap (λ l. newest cap (j.rows ++ above (λ x. x.id) last l)) g.rows
      ∙ ap (λ l. newest cap (j.rows ++ l))
          (above-newest (λ x. x.id) cap last 1 (suc last) j'.next_id j.rows g.new (omega arith)
            (omega arith) old new)
      ∙ newest-newest_right cap j.rows g.new
      ∙ sym g.rows
      ∙ sym (incidents_all-Ready j' (Grows-IsReady cap j j' ready g))
