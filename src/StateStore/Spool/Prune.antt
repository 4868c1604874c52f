-- ===== src/StateStore/Spool/Prune.antt =====
-- `_spool_prune`: it keeps the newest rows, and counts what it removes.
use netlog_ai.Prelude.{
  ℕ, suc, ◌+◌, ◌-◌, ◌≤◌, String, ◌≡◌, ◌≢◌, refl, ◌∙◌, none, some, List, [], ◌∷◌, arith, leb, ltb,
  length, get_elem?, get_elem?-some, Ascends-keep, above-get_elem?, drop, length-drop, inl, inr,
  Bool-cases, lookup, lookup-insert_self, lookup-insert_ne, Option, subst,
}
use netlog_ai.StateStore.Spool.{
  Row, Spool, of_source, after, upto, newest, delete_upto, unread, meta_of, prune_at, spool_prune,
}
use netlog_ai.StateStore.Spool.Order.{
  Between, of_source-delete_upto, of_source-delete_upto_ne, delete_upto-Between, length-delete_upto,
  length-after-upto,
}

-- unread rows of a list: those past the consumer's cursor, none without a readable cursor
abbrev pub backlog : Option (Option ℕ) → List Row → ℕ
backlog none l = 0
backlog (some none) l = 0
backlog (some (some cursor)) l = length (after cursor l)

-- the rows past a cursor are those in (cursor, boundary] and those past both
unread-backlog :
    (c : Option (Option ℕ)) (b : ℕ) (l : List Row)
    → unread c b l + backlog c (after b l) ≡ backlog c l
unfolding unread
unread-backlog none b l = omega arith
unread-backlog (some none) b l = omega arith
unread-backlog (some (some c)) b l = elim (Bool-cases (ltb c b)) [
  | inl e ↦ rw e (split l)
  | inr e ↦ rw e (same l (ground arith))
]
  where
    split :
        (l : List Row)
        → length (after c (upto b l)) + length (after c (after b l)) ≡ length (after c l)
    split [] = omega arith
    split (r ∷ rs) = ground (arith, split rs)

    same : (l : List Row) → b ≤ c → 0 + length (after c (after b l)) ≡ length (after c l)
    same [] h = omega arith
    same (r ∷ rs) h = ground (arith, same rs h)

-- What one prune leaves: the newest rows of its source, every row of the others, in order.
pub record Pruned (src : String) (s t : Spool) (left : List Row) : Type 0 where
  pub mine : of_source src t.table ≡ left
  pub others : (o : String) → o ≢ src → of_source o t.table ≡ of_source o s.table
  pub ordered : Between 0 t.next_id t.table
  pub next_id : t.next_id ≡ s.next_id
  pub cursors : t.cursors ≡ s.cursors
  pub counter : t.prune_counter ≡ s.prune_counter
  pub metas : (o : String) → o ≢ src → lookup o t.counts ≡ lookup o s.counts
  pub removed :
      (meta_of src t).pruned + length left ≡ (meta_of src s).pruned + length (of_source src s.table)
  pub lost :
      (meta_of src t).lost_unread + backlog (lookup src s.cursors) left
      ≡ (meta_of src s).lost_unread + backlog (lookup src s.cursors) (of_source src s.table)

module _ (src : String) (s : Spool) (ordered : Between 0 s.next_id s.table) where
  abbrev mine : List Row
  mine = of_source src s.table

  pub prune_at_lem :
      (total k : ℕ) (r : Row)
      → get_elem? mine k ≡ some r
      → Pruned src s (prune_at src total r.id s).1 (drop (suc k) mine)
  unfolding prune_at
  prune_at_lem total k r h = record {
    mine = left;
    others = λ o ne. of_source-delete_upto_ne src o r.id s.table ne;
    ordered = delete_upto-Between src r.id 0 s.next_id s.table ordered;
    next_id = refl;
    cursors = refl;
    counter = refl;
    metas = λ o ne. lookup-insert_ne src o _ s.counts ne;
    removed =
        rw (lookup-insert_self, ← kept)
          (omega (arith, length-delete_upto src r.id s.table, length-after-upto r.id mine));
    lost =
        rw (lookup-insert_self, ← kept)
          (omega (arith, unread-backlog (lookup src s.cursors) r.id mine));
  }
    where
      kept : after r.id mine ≡ drop (suc k) mine
      kept =
          above-get_elem? (λ r. r.id) 0 s.next_id k mine r
            (Ascends-keep (λ r. r.id) _ 0 s.next_id s.table ordered) h

      left : of_source src (delete_upto src r.id s.table) ≡ drop (suc k) mine
      left = of_source-delete_upto src r.id s.table ∙ kept

  pub Pruned-refl : Pruned src s s mine
  Pruned-refl = record {
    mine = refl;
    others = λ o ne. refl;
    ordered = ordered;
    next_id = refl;
    cursors = refl;
    counter = refl;
    metas = λ o ne. refl;
    removed = refl;
    lost = refl;
  }

  nothing-Pruned : (k : ℕ) → k ≡ 0 → Pruned src s s (drop k mine)
  nothing-Pruned k e = rw e Pruned-refl

  prune_at_count :
      (total k : ℕ) (r : Row)
      → total ≡ length mine
      → get_elem? mine k ≡ some r
      → (prune_at src total r.id s).0 ≡ length (drop (suc k) mine)
  unfolding prune_at
  prune_at_count total k r e h =
      rw
        (← above-get_elem? (λ r. r.id) 0 s.next_id k mine r
          (Ascends-keep (λ r. r.id) _ 0 s.next_id s.table ordered) h)
        (omega (arith, length-delete_upto src r.id s.table, length-after-upto r.id mine))

  -- With an accurate count the newest `cap` rows stay, and the new count is accurate.
  pub spool_prune_lem :
      (total cap : ℕ)
      → total ≡ length mine
      → Pruned src s (spool_prune src total cap s).1 (newest cap mine)
        × ((spool_prune src total cap s).0 ≡ length (newest cap mine))
  unfolding spool_prune
  spool_prune_lem total cap e = elim (Bool-cases (leb total cap)) [
    | inl small ↦ rw small (
      nothing-Pruned (length mine - cap) (ground arith),
      ground (arith, length-drop (length mine - cap) mine),
    )
    | inr large ↦
        let (r, at) = get_elem?-some mine (total - cap - 1) (ground arith) in
        let k = total - cap - 1 in
        let same : suc k ≡ length mine - cap = ground arith in
        rw (large, at)
          (
            subst (λ n. Pruned src s (prune_at src total r.id s).1 (drop n mine)) same
                (prune_at_lem total k r at),
            subst (λ n. (prune_at src total r.id s).0 ≡ length (drop n mine)) same
                (prune_at_count total k r e at),
          )
  ]
