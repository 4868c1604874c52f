-- ===== src/StateStore/AuditLog/Chain.antt =====
-- What a verified chain guarantees: appends keep it, the head pins the whole log, and the first
-- broken row is the one reported. A cut at the end is not seen.
use netlog_ai.Prelude.{
  ℕ, suc, ◌+◌, String, ◌≡◌, refl, ◌∙◌, sym, ap, true, false, none, some, List, [], ◌∷◌, ◌++◌, arith,
  length, eq_iff, map,
}
use netlog_ai.StateStore.AuditLog.{
  Entry, AuditRow, AuditLog, normalise, head_hash, audit_append, verify_from, audit_verify,
}

-- the hash that the next row chains to
abbrev end_hash : String → List AuditRow → String
end_hash prev [] = prev
end_hash prev (r ∷ rs) = end_hash r.hash rs

head-end :
    (prev : String) (r : AuditRow) (rs : List AuditRow)
    → head_hash (r ∷ rs) ≡ end_hash prev (r ∷ rs)
unfolding head_hash
head-end prev r [] = refl
head-end prev r (x ∷ rs) = head-end r.hash x rs

head-end_first : (rs : List AuditRow) → head_hash rs ≡ end_hash "" rs
head-end_first [] = unfold head_hash in refl
head-end_first (r ∷ rs) = head-end "" r rs

-- what the digest covers of a row, with the hashes that chain it
abbrev pub covered : AuditRow → Entry × String × String
covered r = (r.entry, r.prev_hash, r.hash)

module _ (digest : String → Entry → String) where
  -- a row that chains to `prev`
  abbrev pub Chains : String → AuditRow → Type 0
  Chains prev r = (r.prev_hash ≡ prev) × (digest prev r.entry ≡ r.hash)

  verify_append :
      (prev : String) (n : ℕ) (rs qs : List AuditRow)
      → (verify_from digest prev n rs).ok ≡ true
      → verify_from digest prev n (rs ++ qs)
        ≡ verify_from digest (end_hash prev rs) (n + length rs) qs
  unfolding verify_from
  verify_append prev n [] qs h =
      let e : n ≡ n + 0 = omega arith in ap (λ k. verify_from digest prev k qs) e
  verify_append prev n (r ∷ rs) qs h =
      let e : n + 1 + length rs ≡ n + suc (length rs) = omega arith in
      let ih : (verify_from digest r.hash (n + 1) rs).ok ≡ true
          → verify_from digest r.hash (n + 1) (rs ++ qs)
            ≡ verify_from digest (end_hash r.hash rs) (n + suc (length rs)) qs =
        λ k.
          verify_append r.hash (n + 1) rs qs k
          ∙ ap (λ k. verify_from digest (end_hash r.hash rs) k qs) e in
      ground (arith, ih)

  verify-length :
      (prev : String) (n : ℕ) (rs : List AuditRow)
      → (verify_from digest prev n rs).ok ≡ true
      → (verify_from digest prev n rs).checked ≡ n + length rs
  unfolding verify_from
  verify-length prev n [] h = omega arith
  verify-length prev n (r ∷ rs) h = ground (arith, verify-length r.hash (n + 1) rs)

  -- a prefix of what passes passes
  verify_prefix :
      (prev : String) (n : ℕ) (rs qs : List AuditRow)
      → (verify_from digest prev n (rs ++ qs)).ok ≡ true
      → (verify_from digest prev n rs).ok ≡ true
  unfolding verify_from
  verify_prefix prev n [] qs h = refl
  verify_prefix prev n (r ∷ rs) qs h = ground (arith, verify_prefix r.hash (n + 1) rs qs)

  -- Appending any entry to a log that verifies gives a log that verifies, with one more row checked.
  pub audit_append-verifies :
      (now : ℕ) (e : Entry) (log : AuditLog)
      → (audit_verify digest log).ok ≡ true
      → audit_verify digest (audit_append digest now e log).1
        ≡ record { ok = true; checked = length log.rows + 1; broken_at = none }
  unfolding audit_verify audit_append
  audit_append-verifies now e log h =
      verify_append "" 0 log.rows _ h
      ∙ (unfold verify_from in
          ground (
            arith,
            head-end_first log.rows,
            eq_iff (end_hash "" log.rows) (end_hash "" log.rows),
            eq_iff (digest (end_hash "" log.rows) (normalise now e))
                (digest (end_hash "" log.rows) (normalise now e)),
          ))

  -- In a log that verifies up to some row, and where the next row does not chain, the verdict names that
  -- row and counts the rows before it, whatever comes after.
  pub audit_verify-first_broken :
      (rs qs : List AuditRow) (bad : AuditRow) (next_id : ℕ)
      → (verify_from digest "" 0 rs).ok ≡ true
      → ¬ Chains (head_hash rs) bad
      → audit_verify digest (record { rows = rs ++ (bad ∷ qs); next_id = next_id })
        ≡ record { ok = false; checked = length rs; broken_at = some bad.id }
  unfolding audit_verify
  audit_verify-first_broken rs qs bad next_id h broken =
      verify_append "" 0 rs (bad ∷ qs) h
      ∙ (unfold verify_from in
          ground (
            arith,
            head-end_first rs,
            broken,
            eq_iff bad.prev_hash (end_hash "" rs),
            eq_iff (digest (end_hash "" rs) bad.entry) bad.hash,
          ))

  -- Rows cut off at the end are not seen: if a log verifies, so does the log without its last rows.
  pub audit_verify-prefix :
      (rs qs : List AuditRow) (n m : ℕ)
      → (audit_verify digest (record { rows = rs ++ qs; next_id = n })).ok ≡ true
      → (audit_verify digest (record { rows = rs; next_id = m })).ok ≡ true
  unfolding audit_verify
  audit_verify-prefix rs qs n m h = verify_prefix "" 0 rs qs h

  module _
      (injective : (p q : String) (d e : Entry) → digest p d ≡ digest q e → (p ≡ q) × (d ≡ e)) where
    step-verifies :
        (prev : String) (n : ℕ) (r : AuditRow) (rs : List AuditRow)
        → (verify_from digest prev n (r ∷ rs)).ok ≡ true
        → (r.prev_hash ≡ prev)
          × (digest prev r.entry ≡ r.hash)
          × ((verify_from digest r.hash (n + 1) rs).ok ≡ true)
    unfolding verify_from
    step-verifies prev n r rs h =
        ground (arith, eq_iff r.prev_hash prev, eq_iff (digest prev r.entry) r.hash)

    -- the same end, and as many rows: the same rows, and the same start
    pinned :
        (p q : String) (n m : ℕ) (rs qs : List AuditRow)
        → (verify_from digest p n rs).ok ≡ true
        → (verify_from digest q m qs).ok ≡ true
        → length rs ≡ length qs
        → end_hash p rs ≡ end_hash q qs
        → (p ≡ q) × (map covered rs ≡ map covered qs)
    pinned p q n m [] [] h k e f = (f, refl)
    pinned p q n m [] (_ ∷ _) h k e f = absurd (omega arith)
    pinned p q n m (_ ∷ _) [] h k e f = absurd (omega arith)
    pinned p q n m (r ∷ rs) (s ∷ qs) h k e f =
        let (a, b, c) = step-verifies p n r rs h in
        let (a', b', c') = step-verifies q m s qs k in
        let (same, rest) = pinned r.hash s.hash (n + 1) (m + 1) rs qs c c' (omega arith) f in
        let (starts, entries) = injective p q r.entry s.entry (b ∙ same ∙ sym b') in
        (starts, cc (rest, starts, entries, same, a, a'))

    -- With a digest that has no collisions, two logs that verify, are as long and end in the same hash
    -- hold the same entries and hashes in the same order: no row inside was changed.
    pub audit_verify-pins :
        (l m : AuditLog)
        → (audit_verify digest l).ok ≡ true
        → (audit_verify digest m).ok ≡ true
        → length l.rows ≡ length m.rows
        → head_hash l.rows ≡ head_hash m.rows
        → map covered l.rows ≡ map covered m.rows
    unfolding audit_verify
    audit_verify-pins l m h k e f =
        (pinned "" "" 0 0 l.rows m.rows h k e
          (sym (head-end_first l.rows) ∙ f ∙ head-end_first m.rows)).1
