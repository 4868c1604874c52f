-- ===== src/Stability/Report/Scores.antt =====
-- About the scores of `report`, and the devices that it names.
use native.Mathlib.Nat.{mul-le-mul_right, suc-mul}
use netlog_ai.Prelude.{
  ltb→lt, Bool-cases, Dict, lookup, All-insert, str_eq, length-take-le, ◌∙◌, ℕ, zero, suc, ◌+◌, ◌*◌,
  ◌≤◌, ◌<◌, ◌≡◌, Bool, true, List, [], ◌∷◌, arith, leb, ltb, ==_iff, length, take, map, All, inl,
  inr, String, length-map,
}
use netlog_ai.Prelude.Sort.{sort, IsSorted, sort-IsSorted, All-sort, length-sort}
use netlog_ai.Stability.{
  DeviceState, Tracker, Stamps, Classified, note, add_state, add_bucket, add_to_device, add,
  add_all, device_or_new, nothing_seen,
}
use netlog_ai.Stability.Report.{
  Device, sum, or_one, burst_cost, score, device_row, no_later, fabric_score, report,
}

-- a score is never below 5: the deductions are all bounded
abbrev pub InRange : ℕ → Type 0
InRange n = (5 ≤ n) × (n ≤ 100)

score-InRange : (st : DeviceState) (flaps burst : ℕ) → InRange (score st flaps burst)
unfolding score burst_cost
score-InRange st flaps burst = ground arith

-- a weighted sum of scores in range is in range of the weights
weighted :
    (ds : List Device)
    → All (λ d. InRange d.score) ds
    → (5 * sum (map (λ d. d.events) ds) ≤ sum (map (λ d. d.score * d.events) ds))
      × (sum (map (λ d. d.score * d.events) ds) ≤ 100 * sum (map (λ d. d.events) ds))
unfolding sum
weighted [] h = (omega arith, omega arith)
weighted (d ∷ ds) h =
    let rest = weighted ds h.1 in
    (
      omega (arith, rest.0, mul-le-mul_right d.events h.0.0),
      omega (arith, rest.1, mul-le-mul_right d.events h.0.1),
    )

-- devices of which the worse stand first
abbrev pub WorstFirst : List Device → Type 0
WorstFirst = IsSorted (λ a b. leb a.score b.score)

All-rows :
    (tenths : ℕ → ℕ → ℕ) (before : String → String → Bool) (l : List (String × DeviceState))
    → All (λ d. InRange d.score) (map (device_row tenths before) l)
unfolding device_row
All-rows tenths before [] = tt
All-rows tenths before ((host, st) ∷ l) = (score-InRange st _ _, All-rows tenths before l)

take-All {ℓ κ} : {A : Type ℓ} (P : A → Type κ) (n : ℕ) (l : List A) → All P l → All P (take n l)
take-All P zero l h = tt
take-All P (suc n) [] h = tt
take-All P (suc n) (d ∷ l) h = (h.0, take-All P n l h.1)

take-IsSorted : (n : ℕ) (l : List Device) → WorstFirst l → WorstFirst (take n l)
take-IsSorted zero l h = tt
take-IsSorted (suc n) [] h = tt
take-IsSorted (suc n) (d ∷ l) h =
    (take-All (λ b. leb d.score b.score ≡ true) n l h.0, take-IsSorted n l h.1)

-- `round` of a quotient is at most a half away from it
abbrev pub Rounds : (ℕ → ℕ → ℕ) → Type 0
Rounds nearest =
    (n m : ℕ) → 0 < m → (2 * n ≤ 2 * (nearest n m * m) + m) × (2 * (nearest n m * m) ≤ 2 * n + m)

-- so it stays between whole numbers that the quotient stays between
round-between :
    (q lo hi n m : ℕ)
    → 0 < m
    → lo * m ≤ n
    → n ≤ hi * m
    → 2 * n ≤ 2 * (q * m) + m
    → 2 * (q * m) ≤ 2 * n + m
    → (lo ≤ q) × (q ≤ hi)
round-between q lo hi n m positive least most up down = (
  elim (Bool-cases (ltb q lo)) [
    | inl e ↦
        let more : suc q * m ≤ lo * m = mul-le-mul_right m (ltb→lt q lo e) in
        absurd (omega (arith, more, suc-mul q m, least, up, positive))
    | inr e ↦ ground (arith, e)
  ],
  elim (Bool-cases (ltb hi q)) [
    | inl e ↦
        let more : suc hi * m ≤ q * m = mul-le-mul_right m (ltb→lt hi q e) in
        absurd (omega (arith, more, suc-mul hi m, most, down, positive))
    | inr e ↦ ground (arith, e)
  ],
)

fabric_score-InRange :
    (nearest : ℕ → ℕ → ℕ) (ds : List Device)
    → Rounds nearest
    → All (λ d. InRange d.score) ds
    → All (λ d. 0 < d.events) ds
    → InRange (fabric_score nearest ds)
unfolding fabric_score
fabric_score-InRange nearest [] rounds h k = (omega arith, omega arith)
fabric_score-InRange nearest (d ∷ ds) rounds h k =
    let all = d ∷ ds in
    let events = sum (map (λ x. x.events) all) in
    let some_events : 0 < events = unfold sum in omega (arith, k.0) in
    let (least, most) = weighted all h in
    let weight : or_one events ≡ events = ground (arith, some_events, ==_iff events 0) in
    let n = sum (map (λ x. x.score * x.events) all) in
    let (up, down) = rounds n events some_events in
    rw weight (round-between (nearest n events) 5 100 n events some_events least most up down)

-- every device that is tracked has an event
abbrev HasEvents : Dict DeviceState → Type 0
HasEvents = All (λ row. 0 < row.1.total)

add_to_device-total :
    (s : Stamps) (seq : ℕ) (e : Classified) (st : DeviceState)
    → (add_to_device s seq e st).total ≡ suc st.total
unfolding add_to_device add_bucket add_state note
add_to_device-total s seq e st = ground arith

add-HasEvents :
    (s : Stamps) (e : Classified) (t : Tracker)
    → HasEvents t.devices
    → HasEvents (add s e t).devices
unfolding add
add-HasEvents s e t h = elim (Bool-cases (str_eq e.event.hostname "")) [
  | inl none_named ↦ rw (none_named, add) h
  | inr named ↦
      let st = device_or_new (lookup e.event.hostname t.devices) in
      rw (named, add)
        (All-insert (λ d. 0 < d.total) e.event.hostname (add_to_device s t.seq e st) t.devices
          (omega (arith, add_to_device-total s t.seq e st)) h)
]

add_all-HasEvents :
    (s : Stamps) (es : List Classified) (t : Tracker)
    → HasEvents t.devices
    → HasEvents (add_all s es t).devices
unfolding add_all
add_all-HasEvents s [] t h = h
add_all-HasEvents s (e ∷ es) t h = add_all-HasEvents s es (add s e t) (add-HasEvents s e t h)

rows-events :
    (tenths : ℕ → ℕ → ℕ) (before : String → String → Bool) (l : Dict DeviceState)
    → HasEvents l
    → All (λ d. 0 < d.events) (map (device_row tenths before) l)
unfolding device_row
rows-events tenths before [] h = tt
rows-events tenths before ((host, st) ∷ l) h = (h.0, rows-events tenths before l h.1)

-- Whatever events a tracker has seen, each device that a report names has a score between 5 and 100, the
-- worse stand first, no more are named than asked for, and all are counted. When `round` answers a whole
-- number that is at most a half away, the score of the fabric is between 5 and 100 too.
pub report_lem :
    (tenths nearest : ℕ → ℕ → ℕ) (before : String → String → Bool) (top_n : ℕ) (s : Stamps)
    (es : List Classified)
    → Rounds nearest
    → All
        (λ d. InRange d.score)
        (report tenths nearest before top_n (add_all s es nothing_seen)).devices
      × WorstFirst (report tenths nearest before top_n (add_all s es nothing_seen)).devices
      × (length (report tenths nearest before top_n (add_all s es nothing_seen)).devices ≤ top_n)
      × ((report tenths nearest before top_n (add_all s es nothing_seen)).device_count
          ≡ length (add_all s es nothing_seen).devices)
      × InRange (report tenths nearest before top_n (add_all s es nothing_seen)).fabric_score
unfolding report
report_lem tenths nearest before top_n s es rounds =
    let t = add_all s es nothing_seen in
    let rows = map (device_row tenths before) t.devices in
    let sorted = sort no_later rows in
    let scores = All-sort no_later (λ d. InRange d.score) rows (All-rows tenths before t.devices) in
    let events =
      All-sort no_later (λ d. 0 < d.events) rows
        (rows-events tenths before t.devices (add_all-HasEvents s es nothing_seen tt)) in
    (
      take-All (λ d. InRange d.score) top_n sorted scores,
      take-IsSorted top_n sorted (
          sort-IsSorted no_later (λ a b. leb a.score b.score)
            (λ a b h. unfold no_later in ground (arith, h, ==_iff a.score b.score))
            (λ a b h. unfold no_later in ground (arith, h)) (λ a b c h k. ground arith) rows),
      length-take-le top_n sorted,
      length-sort no_later rows ∙ length-map (device_row tenths before) t.devices,
      fabric_score-InRange nearest sorted rounds scores events,
    )
