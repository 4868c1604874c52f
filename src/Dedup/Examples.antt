-- ===== src/Dedup/Examples.antt =====
-- The theorems about the deduplicator, for lines of two templates.
use netlog_ai.Prelude.{
  ◌≤◌, String, ◌≡◌, refl, true, Option, none, some, List, [], ◌∷◌, All, lookup, insert,
}
use netlog_ai.Dedup.{
  Line, nothing, see, add_host, count_value, count_values, count_kinds, add_line, cluster_for,
  take_line, take_lines, deduplicate,
}
use netlog_ai.Dedup.Cluster.{IsBounded}
use netlog_ai.Dedup.Exact.{take_lines-exact}
use netlog_ai.Dedup.Counts.{total, count_at, deduplicate-accounts}

abbrev line : String → String → Line
line template host = record {
  text = "Jan 1 00:00:00 r1 link down";
  size = 27;
  ts = "Jan 1 00:00:00";
  host = host;
  template = template;
  variables = ("INTF", "et-0/0/1" ∷ []) ∷ [];
}

abbrev lines : List (Option Line)
lines =
    some (line "link <INTF> down" "r1")
    ∷ none
    ∷ some (line "link <INTF> up" "r1")
    ∷ some (line "link <INTF> down" "r2")
    ∷ []

abbrev digest : String → String
digest template = template

deduplicate-accounts_example :
    (total (deduplicate digest true 1 lines).clusters
      ≡ (deduplicate digest true 1 lines).total_lines)
    × ((deduplicate digest true 1 lines).total_lines ≡ 3)
    × ((deduplicate digest true 1 lines).unique_templates ≤ 2)
    × All IsBounded (deduplicate digest true 1 lines).clusters
deduplicate-accounts_example = deduplicate-accounts digest 1 lines

take_lines-exact_example :
    count_at "link <INTF> down" (take_lines digest 20 lines nothing).clusters ≡ 2
unfolding take_lines take_line cluster_for add_line see add_host count_kinds count_values
    count_value lookup insert
take_lines-exact_example = take_lines-exact digest 20 lines refl "link <INTF> down"
