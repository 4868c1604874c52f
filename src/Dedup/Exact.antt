-- ===== src/Dedup/Exact.antt =====
-- About the counts of the clusters when the lines fit (`deduplicate`).
use netlog_ai.Prelude.{
  ℕ, suc, ◌+◌, String, ◌≡◌, ◌⊎◌, refl, sym, ap, subst, ◌∙◌, Option, none, some, List, [], ◌∷◌,
  arith, leb, str_eq, eq_iff, if◌then◌else◌, length, Dict, lookup, insert, lookup-insert,
  Bool-cases, Option-cases, inl, inr,
}
use netlog_ai.Dedup.{LogCluster, Line, Dedup, nothing, add_line, cluster_for, take_line, take_lines}
use netlog_ai.Dedup.Cluster.{add_line-count}
use netlog_ai.Dedup.Counts.{
  count_at, lines_with, count_at-insert, cluster_for-Placed, take_line-IsValid, nothing-IsValid,
  IsValid,
}

-- the overflow cluster, once it is there, stays
overflow-stays :
    (digest : String → String) (cap : ℕ) (line : Line) (d : Dedup)
    → lookup "overflow" (take_line digest cap line d).clusters ≡ none
    → lookup "overflow" d.clusters ≡ none
unfolding take_line
overflow-stays digest cap line d h =
    let (id, c) = cluster_for digest cap line d.clusters in
    ground (arith, h, lookup-insert id "overflow" (add_line line c) d.clusters)

cluster_for-key :
    (digest : String → String) (cap : ℕ) (line : Line) (m : Dict LogCluster)
    → ((cluster_for digest cap line m).0 ≡ digest line.template)
      ⊎ ((cluster_for digest cap line m).0 ≡ "overflow")
unfolding cluster_for
cluster_for-key digest cap line m = elim (Option-cases (lookup (digest line.template) m)) [
  | inr (c, e) ↦ rw (e, cluster_for) (inl refl)
  | inl e ↦ elim (Bool-cases (leb cap (length m))) [
    | inl no_room ↦ rw (e, cluster_for, no_room) (inr refl)
    | inr room ↦ rw (e, cluster_for, room) (inl refl)
  ]
]

-- a line that does not overflow goes to the cluster of its template
cluster_for-own :
    (digest : String → String) (cap : ℕ) (line : Line) (d : Dedup)
    → lookup "overflow" (take_line digest cap line d).clusters ≡ none
    → (cluster_for digest cap line d.clusters).0 ≡ digest line.template
unfolding take_line
cluster_for-own digest cap line d h =
    let (id, c) = cluster_for digest cap line d.clusters in
    elim (cluster_for-key digest cap line d.clusters) [
      | inl e ↦ e
      | inr e ↦ absurd (
          ground (
            arith,
            h,
            (eq_iff id "overflow").1 e,
            lookup-insert id "overflow" (add_line line c) d.clusters,
          ))
    ]

take_line-count :
    (digest : String → String) (cap : ℕ) (line : Line) (d : Dedup) (j : String)
    → IsValid cap d
    → lookup "overflow" (take_line digest cap line d).clusters ≡ none
    → count_at j (take_line digest cap line d).clusters ≡ (
        if str_eq (digest line.template) j
        then suc (count_at j d.clusters)
        else count_at j d.clusters)
unfolding take_line
take_line-count digest cap line d j v h =
    let (id, c) = cluster_for digest cap line d.clusters in
    let own = cluster_for-own digest cap line d h in
    let p = cluster_for-Placed digest cap line d.clusters v.bounded in
    let counted = add_line-count line c in
    subst
      (λ k.
        count_at j (insert id (add_line line c) d.clusters)
        ≡ (if str_eq k j then suc (count_at j d.clusters) else count_at j d.clusters))
      own
      (count_at-insert id j (add_line line c) d.clusters ∙ (elim (Bool-cases (str_eq id j)) [
        | inl e ↦
            rw e
              (counted ∙ ap suc (sym p.same ∙ ap (λ k. count_at k d.clusters) ((eq_iff id j).0 e)))
        | inr e ↦ rw e refl
      ]))

-- the overflow cluster that is not there in the end never was
take_lines-overflow :
    (digest : String → String) (cap : ℕ) (ls : List (Option Line)) (d : Dedup)
    → lookup "overflow" (take_lines digest cap ls d).clusters ≡ none
    → lookup "overflow" d.clusters ≡ none
unfolding take_lines
take_lines-overflow digest cap [] d h = h
take_lines-overflow digest cap (none ∷ ls) d h = take_lines-overflow digest cap ls d h
take_lines-overflow digest cap (some line ∷ ls) d h =
    overflow-stays digest cap line d
      (take_lines-overflow digest cap ls (take_line digest cap line d) h)

take_lines-count :
    (digest : String → String) (cap : ℕ) (ls : List (Option Line)) (d : Dedup) (j : String)
    → IsValid cap d
    → lookup "overflow" (take_lines digest cap ls d).clusters ≡ none
    → count_at j (take_lines digest cap ls d).clusters
      ≡ count_at j d.clusters + lines_with digest j ls
unfolding take_lines
take_lines-count digest cap [] d j v h = omega arith
take_lines-count digest cap (none ∷ ls) d j v h = take_lines-count digest cap ls d j v h
take_lines-count digest cap (some line ∷ ls) d j v h =
    let d' = take_line digest cap line d in
    ground (
      arith,
      take_lines-count digest cap ls d' j (take_line-IsValid digest cap line d v) h,
      take_line-count digest cap line d j v (take_lines-overflow digest cap ls d' h),
    )

-- When the lines fit, so that there is no overflow cluster in the end, the cluster of each template counts
-- exactly the lines whose template has its digest, and a template that no line has has no count.
pub take_lines-exact :
    (digest : String → String) (cap : ℕ) (ls : List (Option Line))
    → lookup "overflow" (take_lines digest cap ls nothing).clusters ≡ none
    → (j : String) → count_at j (take_lines digest cap ls nothing).clusters ≡ lines_with digest j ls
take_lines-exact digest cap ls h j =
    unfold lookup in omega (arith, take_lines-count digest cap ls nothing j (nothing-IsValid cap) h)
