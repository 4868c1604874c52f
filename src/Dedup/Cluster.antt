-- ===== src/Dedup/Cluster.antt =====
-- About the limits of a cluster (`deduplicate`).
use netlog_ai.Prelude.{
  suc, ◌≤◌, ◌<◌, String, ◌≡◌, sym, ap, subst, ◌∙◌, List, [], ◌∷◌, arith, length, All, Dict, lookup,
  insert, length-insert, All-insert, All-lookup, Option-cases, inl, inr,
}
use netlog_ai.Dedup.{
  LogCluster, Counter, Line, max_hosts_per_cluster, max_values_per_kind, new_cluster, see, add_host,
  count_value, count_values, count_kinds, add_line,
}

-- no more values than the limit in a bucket
abbrev pub Small : Dict Counter → Type 0
Small = All (λ row. length row.1 ≤ max_values_per_kind)

pub record IsBounded (c : LogCluster) : Type 0 where
  pub hosts : length c.hosts ≤ max_hosts_per_cluster
  pub values : Small c.variable_counts
  pub counted : 0 < c.count

count_value-small :
    (v : String) (bucket : Counter)
    → length bucket ≤ max_values_per_kind
    → length (count_value v bucket) ≤ max_values_per_kind
unfolding count_value
count_value-small v bucket h = elim (Option-cases (lookup v bucket)) [
  | inl e ↦ rw (e, length) (ground (arith, h, e, length-insert v 1 bucket))
  | inr (n, e) ↦ rw (e, length) (ground (arith, h, e, length-insert v (suc n) bucket))
]

count_values-small :
    (vs : List String) (bucket : Counter)
    → length bucket ≤ max_values_per_kind
    → length (count_values vs bucket) ≤ max_values_per_kind
unfolding count_values
count_values-small [] bucket h = h
count_values-small (v ∷ vs) bucket h =
    count_values-small vs (count_value v bucket) (count_value-small v bucket h)

count_kinds-small :
    (vars : Dict (List String)) (counts : Dict Counter)
    → Small counts
    → Small (count_kinds vars counts)
unfolding count_kinds
count_kinds-small [] counts h = h
count_kinds-small ((kind, values) ∷ l) counts h = elim (Option-cases (lookup kind counts)) [
  | inl e ↦ rw e (count_kinds-small l counts h)
  | inr (bucket, e) ↦ rw e (
      count_kinds-small l (insert kind (count_values values bucket) counts) (
        All-insert (λ b. length b ≤ max_values_per_kind) kind (count_values values bucket) counts
          (count_values-small values bucket
            (All-lookup (λ b. length b ≤ max_values_per_kind) kind bucket counts e h))
          h))
]

-- what a line does to the parts of a cluster
add_host-keeps :
    (host : String) (c : LogCluster)
    → length c.hosts ≤ max_hosts_per_cluster
    → (length (add_host host c).hosts ≤ max_hosts_per_cluster)
      × ((add_host host c).variable_counts ≡ c.variable_counts)
      × ((add_host host c).count ≡ c.count)
unfolding add_host
add_host-keeps host c h = ground (arith, h)

see-keeps :
    (ts : String) (c : LogCluster)
    → ((see ts c).hosts ≡ c.hosts)
      × ((see ts c).variable_counts ≡ c.variable_counts)
      × ((see ts c).count ≡ c.count)
unfolding see
see-keeps ts c = ground arith

pub new_cluster-small :
    (id template : String) (line : Line) → Small (new_cluster id template line).variable_counts
new_cluster-small id template line =
    (omega arith, (omega arith, (omega arith, (omega arith, (omega arith, tt)))))

pub add_line-IsBounded :
    (line : Line) (c : LogCluster)
    → length c.hosts ≤ max_hosts_per_cluster
    → Small c.variable_counts
    → IsBounded (add_line line c)
unfolding add_line
add_line-IsBounded line c few small =
    let one_more = record c { count = suc c.count } in
    let seen = see line.ts one_more in
    let (same_hosts, same_values, same_count) = see-keeps line.ts one_more in
    let (few', kept, count) =
      add_host-keeps line.host seen (omega (arith, few, ap length same_hosts)) in
    record {
      hosts = few';
      values =
          count_kinds-small line.variables (add_host line.host seen).variable_counts
            (subst Small (sym (kept ∙ same_values)) small);
      counted = omega (arith, count, same_count);
    }

pub add_line-count : (line : Line) (c : LogCluster) → (add_line line c).count ≡ suc c.count
unfolding add_line add_host see
add_line-count line c = ground arith
