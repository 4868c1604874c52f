-- ===== src/Dedup/Counts.antt =====
-- About the counts of the clusters, and how many clusters there are (`deduplicate`).
use netlog_ai.Prelude.{
  ℕ, suc, ◌+◌, ◌≤◌, ◌<◌, String, ◌≡◌, ◌⊎◌, refl, sym, ap, subst, ◌∙◌, true, Option, none, some,
  List, [], ◌∷◌, arith, ltb, leb, str_eq, eq_iff, if◌then◌else◌, ◌||◌, length, keep, map, All, Dict,
  lookup, insert, length-insert, lookup-insert, All-insert, All-lookup, Bool-cases, Option-cases,
  inl, inr,
}
use netlog_ai.Dedup.{
  max_hosts_per_cluster, LogCluster, Line, Dedup, nothing, new_cluster, overflow_template, add_line,
  cluster_for, take_line, take_lines, deduplicate,
}
use netlog_ai.Dedup.Cluster.{
  IsBounded, Small, new_cluster-small, add_line-IsBounded, add_line-count,
}

-- the counts of all clusters
abbrev pub total : List LogCluster → ℕ
total [] = 0
total (c ∷ l) = c.count + total l

-- the count under a key
abbrev pub count_at : String → Dict LogCluster → ℕ
count_at id m = elim (lookup id m) [ none ↦ 0 | some c ↦ c.count ]

abbrev values : Dict LogCluster → List LogCluster
values = map (λ row. row.1)

-- the lines that are not blank
abbrev pub lines_of : List (Option Line) → ℕ
lines_of [] = 0
lines_of (none ∷ ls) = lines_of ls
lines_of (some line ∷ ls) = suc (lines_of ls)

-- those whose template has an id
abbrev pub lines_with : (String → String) → String → List (Option Line) → ℕ
lines_with digest id [] = 0
lines_with digest id (none ∷ ls) = lines_with digest id ls
lines_with digest id (some line ∷ ls) =
    if str_eq (digest line.template) id
    then suc (lines_with digest id ls)
    else lines_with digest id ls

total-insert :
    (id : String) (c : LogCluster) (m : Dict LogCluster)
    → total (values (insert id c m)) + count_at id m ≡ total (values m) + c.count
unfolding insert lookup
total-insert id c [] = omega arith
total-insert id c ((i, d) ∷ m) = ground (arith, total-insert id c m)

pub count_at-insert :
    (id j : String) (c : LogCluster) (m : Dict LogCluster)
    → count_at j (insert id c m) ≡ (if str_eq id j then c.count else count_at j m)
count_at-insert id j c m = ground (arith, lookup-insert id j c m)

-- what the clusters are while the lines are taken
pub record IsValid (cap : ℕ) (d : Dedup) : Type 0 where
  pub room : length d.clusters ≤ cap + 1
  pub full : lookup "overflow" d.clusters ≡ none → length d.clusters ≤ cap
  pub sum : total (values d.clusters) ≡ d.total_lines
  pub bounded : All (λ row. IsBounded row.1) d.clusters

-- the cluster that a line is added to, before it is
pub record Placed (cap : ℕ) (clusters : Dict LogCluster) (id : String) (c : LogCluster)
    : Type 0 where
  pub same : count_at id clusters ≡ c.count
  pub few : length c.hosts ≤ max_hosts_per_cluster
  pub small : Small c.variable_counts
  pub fits : lookup id clusters ≡ none → (length clusters < cap) ⊎ (id ≡ "overflow")

new_cluster-Placed :
    (cap : ℕ) (clusters : Dict LogCluster) (id template : String) (line : Line)
    → lookup id clusters ≡ none
    → (length clusters < cap) ⊎ (id ≡ "overflow")
    → Placed cap clusters id (new_cluster id template line)
new_cluster-Placed cap clusters id template line e fits = record {
  same = rw (e, count_at) refl;
  few = omega arith;
  small = new_cluster-small id template line;
  fits = λ h. fits;
}

lookup-Placed :
    (cap : ℕ) (clusters : Dict LogCluster) (id : String) (c : LogCluster)
    → All (λ row. IsBounded row.1) clusters
    → lookup id clusters ≡ some c
    → Placed cap clusters id c
lookup-Placed cap clusters id c bounded e =
    let b = All-lookup IsBounded id c clusters e bounded in
    record {
      same = rw (e, count_at) refl;
      few = b.hosts;
      small = b.values;
      fits = λ h. absurd (ground (arith, h, e));
    }

pub cluster_for-Placed :
    (digest : String → String) (cap : ℕ) (line : Line) (clusters : Dict LogCluster)
    → All (λ row. IsBounded row.1) clusters
    → Placed cap clusters
        (cluster_for digest cap line clusters).0
        (cluster_for digest cap line clusters).1
unfolding cluster_for
cluster_for-Placed digest cap line clusters bounded =
    let id = digest line.template in
    elim (Option-cases (lookup id clusters)) [
      | inr (c, e) ↦ rw (e, cluster_for) (lookup-Placed cap clusters id c bounded e)
      | inl e ↦ elim (Bool-cases (leb cap (length clusters))) [
        | inr room ↦
            rw (e, cluster_for, room)
              (new_cluster-Placed cap clusters id line.template line e (inl (ground (arith, room))))
        | inl no_room ↦ elim (Option-cases (lookup "overflow" clusters)) [
          | inl first ↦
              rw (e, cluster_for, no_room, first)
                (new_cluster-Placed cap clusters "overflow" overflow_template line first (inr refl))
          | inr (c, there) ↦
              rw (e, cluster_for, no_room, there)
                (lookup-Placed cap clusters "overflow" c bounded there)
        ]
      ]
    ]

-- how many clusters there are once one is put in its place
insert-room :
    (cap : ℕ) (m : Dict LogCluster) (id : String) (c : LogCluster)
    → (lookup id m ≡ none → (length m < cap) ⊎ (id ≡ "overflow"))
    → length m ≤ cap + 1
    → (lookup "overflow" m ≡ none → length m ≤ cap)
    → (length (insert id c m) ≤ cap + 1)
      × (lookup "overflow" (insert id c m) ≡ none → length (insert id c m) ≤ cap)
insert-room cap m id c fits room full =
    let longer = length-insert id c m in
    let found = lookup-insert id "overflow" c m in
    elim (Option-cases (lookup id m)) [
      | inr (old, e) ↦
          (ground (arith, longer, e, room), λ h. ground (arith, longer, e, h, found, full))
      | inl e ↦ elim (fits e) [
        | inl more ↦ (ground (arith, longer, e, more), λ h. ground (arith, longer, e, more))
        | inr own ↦
            let before = full (subst (λ k. lookup k m ≡ none) own e) in
            (
              ground (arith, longer, e, before),
              λ h. absurd (ground (arith, h, found, (eq_iff id "overflow").1 own)),
            )
      ]
    ]

pub take_line-IsValid :
    (digest : String → String) (cap : ℕ) (line : Line) (d : Dedup)
    → IsValid cap d
    → IsValid cap (take_line digest cap line d)
unfolding take_line
take_line-IsValid digest cap line d v =
    let (id, c) = cluster_for digest cap line d.clusters in
    let p = cluster_for-Placed digest cap line d.clusters v.bounded in
    let c' = add_line line c in
    let (room, full) = insert-room cap d.clusters id c' p.fits v.room v.full in
    record {
      room = room;
      full = full;
      sum = omega (arith, total-insert id c' d.clusters, p.same, add_line-count line c, v.sum);
      bounded =
          All-insert IsBounded id c' d.clusters (add_line-IsBounded line c p.few p.small) v.bounded;
    }

take_lines-IsValid :
    (digest : String → String) (cap : ℕ) (ls : List (Option Line)) (d : Dedup)
    → IsValid cap d
    → IsValid cap (take_lines digest cap ls d)
unfolding take_lines
take_lines-IsValid digest cap [] d v = v
take_lines-IsValid digest cap (none ∷ ls) d v = take_lines-IsValid digest cap ls d v
take_lines-IsValid digest cap (some line ∷ ls) d v =
    take_lines-IsValid digest cap ls (take_line digest cap line d)
      (take_line-IsValid digest cap line d v)

take_lines-total :
    (digest : String → String) (cap : ℕ) (ls : List (Option Line)) (d : Dedup)
    → (take_lines digest cap ls d).total_lines ≡ d.total_lines + lines_of ls
unfolding take_lines take_line
take_lines-total digest cap [] d = omega arith
take_lines-total digest cap (none ∷ ls) d = take_lines-total digest cap ls d
take_lines-total digest cap (some line ∷ ls) d =
    omega (arith, take_lines-total digest cap ls (take_line digest cap line d))

pub nothing-IsValid : (cap : ℕ) → IsValid cap nothing
nothing-IsValid cap = record {
  room = omega arith;
  full = λ h. omega arith;
  sum = refl;
  bounded = tt;
}

keep_all : (l : List LogCluster) → keep (λ c. true || ltb 1 c.count) l ≡ l
keep_all [] = refl
keep_all (c ∷ l) = ap (λ t. c ∷ t) (keep_all l)

All-values : (m : Dict LogCluster) → All (λ row. IsBounded row.1) m → All IsBounded (values m)
All-values [] h = tt
All-values ((id, c) ∷ m) h = (h.0, All-values m h.1)

-- Whatever the lines are, a deduplication that keeps singletons counts each line that is not blank in
-- exactly one cluster. It makes at most one cluster more than its limit, and each of them has at least one
-- line and keeps no more hosts, and of each kind no more values, than the module's limits.
pub deduplicate-accounts :
    (digest : String → String) (cap : ℕ) (ls : List (Option Line))
    → (total (deduplicate digest true cap ls).clusters
        ≡ (deduplicate digest true cap ls).total_lines)
      × ((deduplicate digest true cap ls).total_lines ≡ lines_of ls)
      × ((deduplicate digest true cap ls).unique_templates ≤ cap + 1)
      × All IsBounded (deduplicate digest true cap ls).clusters
unfolding deduplicate
deduplicate-accounts digest cap ls =
    let d = take_lines digest cap ls nothing in
    let v = take_lines-IsValid digest cap ls nothing (nothing-IsValid cap) in
    (
      ap total (keep_all (values d.clusters)) ∙ v.sum,
      omega (arith, take_lines-total digest cap ls nothing),
      v.room,
      subst (All IsBounded) (sym (keep_all (values d.clusters))) (All-values d.clusters v.bounded),
    )
