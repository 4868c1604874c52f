-- ===== src/Stability/Examples.antt =====
-- The theorems about stability, for an interface that goes down and comes up.
use native.Mathlib.Nat.{mod-lt, div-add-mod', suc-mul}
use netlog_ai.Prelude.{
  suc, ◌*◌, ◌/◌, ◌%◌, if◌then◌else◌, Bool-cases, inl, inr, ℕ, ◌+◌, ◌≤◌, ◌≡◌, String, true, false,
  List, [], ◌∷◌, arith, All, length, get_pair, leb,
}
use netlog_ai.Stability.{Classified, Stamps, new_device, nothing_seen, add_all}
use netlog_ai.Stability.Bounds.{IsBounded, add_all-IsBounded}
use netlog_ai.Stability.Flips.{flips, changes, states_of, add_events, add_events-flips}
use netlog_ai.Stability.Report.{report}
use netlog_ai.Stability.Report.Scores.{InRange, WorstFirst, Rounds, report_lem}

abbrev event : String → String → Classified
event description interface = record {
  event = record {
    event_type = "interface_link";
    state = "down";
    hostname = "r1";
    vendor = "junos";
    timestamp = "";
    peer_ip = "";
    vrf = "";
    interface = interface;
    tunnel_id = "";
    healthcheck = "";
    neighbor = "";
  };
  severity = "high";
  description = description;
}

abbrev stamps : Stamps
stamps = record { lower = λ s. s; minute = λ s. s; arrival = λ n. "seq-0"; earlier = λ a b. false }

abbrev events : List Classified
events = event "Interface link down" "et-0/0/1" ∷ event "Interface link up" "et-0/0/1" ∷ []

add_all-IsBounded_example :
    All (λ row. IsBounded row.1) (add_all stamps events nothing_seen).devices
add_all-IsBounded_example = add_all-IsBounded stamps events nothing_seen tt

abbrev numbered : List (ℕ × Classified)
numbered =
    (0, event "Interface link down" "et-0/0/1") ∷ (1, event "Interface link up" "et-0/0/1") ∷ []

add_events-flips_example :
    flips ("interface", "et-0/0/1") (add_events stamps numbered new_device)
    ≡ flips ("interface", "et-0/0/1") new_device
      + changes
          (get_pair ("interface", "et-0/0/1") new_device.last_state)
          (states_of stamps ("interface", "et-0/0/1") numbered new_device)
add_events-flips_example = add_events-flips stamps ("interface", "et-0/0/1") numbered new_device

-- to the nearest whole number, a half downwards
abbrev nearest : ℕ → ℕ → ℕ
nearest n m = if leb (2 * (n % m)) m then n / m else suc (n / m)

nearest-Rounds : Rounds nearest
nearest-Rounds n m h =
    let parts = div-add-mod' n m in
    let small = mod-lt n h in
    elim (Bool-cases (leb (2 * (n % m)) m)) [
      | inl e ↦ rw (e, nearest) (ground (arith, parts, small, e), ground (arith, parts, small, e))
      | inr e ↦
          let more = suc-mul (n / m) m in
          rw (e, nearest)
            (ground (arith, parts, small, e, more), ground (arith, parts, small, e, more))
    ]

report_lem_example :
    All
      (λ d. InRange d.score)
      (report nearest nearest (λ a b. true) 5 (add_all stamps events nothing_seen)).devices
    × WorstFirst
        (report nearest nearest (λ a b. true) 5 (add_all stamps events nothing_seen)).devices
    × (length (report nearest nearest (λ a b. true) 5 (add_all stamps events nothing_seen)).devices
        ≤ 5)
    × ((report nearest nearest (λ a b. true) 5 (add_all stamps events nothing_seen)).device_count
        ≡ length (add_all stamps events nothing_seen).devices)
    × InRange
        (report nearest nearest (λ a b. true) 5 (add_all stamps events nothing_seen)).fabric_score
report_lem_example = report_lem nearest nearest (λ a b. true) 5 stamps events nearest-Rounds
