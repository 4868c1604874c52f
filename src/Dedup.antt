-- ===== src/Dedup.antt =====
-- dedup.py: the log deduplicator, `LogCluster` and `NetworkLogDeduplicator`. What the regular expressions
-- take out of a line (its header and its masked template) and the SHA-1 of a template are parameters.
pub mod Cluster
pub mod Counts
pub mod Exact
mod Examples
use netlog_ai.Prelude.{
  ℕ, suc, ◌+◌, ◌||◌, ◌&&◌, not, String, Bool, true, false, Option, none, some, List, [], ◌∷◌, ltb,
  leb, str_eq, if◌then◌else◌, length, keep, any, map, Dict, lookup, insert,
}

abbrev pub max_hosts_per_cluster : ℕ
max_hosts_per_cluster = 1000

abbrev pub max_values_per_kind : ℕ
max_values_per_kind = 500

-- Counter[str]
abbrev pub Counter : Type 0
Counter = Dict ℕ

-- `hosts` is a set: a list without repeats
pub record LogCluster : Type 0 where
  pub cluster_id : String
  pub template : String
  pub count : ℕ
  pub first_seen : String
  pub last_seen : String
  pub hosts : List String
  pub sample_raw : String
  pub variable_counts : Dict Counter
  pub hosts_truncated : Bool

-- `_COUNTED_KINDS`
abbrev pub counted_kinds : List String
counted_kinds = "INTF" ∷ "IPV4" ∷ "IPV6" ∷ "ASN" ∷ "MAC" ∷ []

-- {kind: Counter() for kind in _COUNTED_KINDS}
abbrev pub no_counts : Dict Counter
no_counts = map (λ kind. (kind, [])) counted_kinds

-- What the loop of `deduplicate` takes out of a line that is not blank.
pub record Line : Type 0 where
  pub text : String
  pub size : ℕ
  pub ts : String
  pub host : String
  pub template : String
  pub variables : Dict (List String)

abbrev pub new_cluster : String → String → Line → LogCluster
new_cluster id template line = record {
  cluster_id = id;
  template = template;
  count = 0;
  first_seen = line.ts;
  last_seen = line.ts;
  hosts = [];
  sample_raw = line.text;
  variable_counts = no_counts;
  hosts_truncated = false;
}

-- if ts: …
pub see : String → LogCluster → LogCluster
see ts c = if str_eq ts "" then c else record c {
  first_seen = if str_eq c.first_seen "" then ts else c.first_seen;
  last_seen = ts;
}

-- if host: …
pub add_host : String → LogCluster → LogCluster
add_host host c =
    if str_eq host ""
    then c
    else if any (str_eq host) c.hosts
    then c
    else if ltb (length c.hosts) max_hosts_per_cluster
    then record c { hosts = host ∷ c.hosts }
    else record c { hosts_truncated = true }

-- bucket[value] += 1, where the bucket has room
pub count_value : String → Counter → Counter
count_value value bucket = elim (lookup value bucket) [
  | none ↦ if ltb (length bucket) max_values_per_kind then insert value 1 bucket else bucket
  | some n ↦ insert value (suc n) bucket
]

pub count_values : List String → Counter → Counter
count_values [] bucket = bucket
count_values (v ∷ vs) bucket = count_values vs (count_value v bucket)

-- the loop over the kinds
pub count_kinds : Dict (List String) → Dict Counter → Dict Counter
count_kinds [] counts = counts
count_kinds ((kind, values) ∷ l) counts = count_kinds l (elim (lookup kind counts) [
  | none ↦ counts
  | some bucket ↦ insert kind (count_values values bucket) counts
])

-- the changes that a line makes to its cluster
pub add_line : Line → LogCluster → LogCluster
add_line line c =
    let counted = add_host line.host (see line.ts (record c { count = suc c.count })) in
    record counted { variable_counts = count_kinds line.variables counted.variable_counts }

abbrev pub overflow_template : String
overflow_template = "<more distinct templates than the cluster limit>"

-- the cluster of a line: its key in the dictionary, and what stands there or is put there
pub cluster_for : (String → String) → ℕ → Line → Dict LogCluster → String × LogCluster
cluster_for digest max_clusters line clusters =
    let id = digest line.template in
    elim (lookup id clusters) [
      | some c ↦ (id, c)
      | none ↦
          if leb max_clusters (length clusters)
          then (
            "overflow",
            elim (lookup "overflow" clusters) [
              | none ↦ new_cluster "overflow" overflow_template line
              | some c ↦ c
            ],
          )
          else (id, new_cluster id line.template line)
    ]

pub record Dedup : Type 0 where
  pub clusters : Dict LogCluster
  pub total_lines : ℕ
  pub raw_chars : ℕ

-- one line that is not blank
pub take_line : (String → String) → ℕ → Line → Dedup → Dedup
take_line digest max_clusters line d =
    let (id, c) = cluster_for digest max_clusters line d.clusters in
    record {
      clusters = insert id (add_line line c) d.clusters;
      total_lines = suc d.total_lines;
      raw_chars = d.raw_chars + line.size;
    }

-- the loop; `none` is a blank line
pub take_lines : (String → String) → ℕ → List (Option Line) → Dedup → Dedup
take_lines digest max_clusters [] d = d
take_lines digest max_clusters (none ∷ ls) d = take_lines digest max_clusters ls d
take_lines digest max_clusters (some line ∷ ls) d =
    take_lines digest max_clusters ls (take_line digest max_clusters line d)

pub record DedupResult : Type 0 where
  pub clusters : List LogCluster
  pub total_lines : ℕ
  pub unique_templates : ℕ
  pub raw_chars : ℕ

abbrev pub nothing : Dedup
nothing = record { clusters = []; total_lines = 0; raw_chars = 0 }

-- `deduplicate`, without the length of the prompt text; `max(1, max_clusters)` is made by the constructor
pub deduplicate : (String → String) → Bool → ℕ → List (Option Line) → DedupResult
deduplicate digest preserve_singletons max_clusters ls =
    let d = take_lines digest max_clusters ls nothing in
    record {
      clusters = keep (λ c. preserve_singletons || ltb 1 c.count) (map (λ row. row.1) d.clusters);
      total_lines = d.total_lines;
      unique_templates = length d.clusters;
      raw_chars = d.raw_chars;
    }
