-- ===== src/Stability/Report.antt =====
-- The report: `_flap_count`, `_burst_ratio`, `_trend`, `_score`, `_risk` and `report`. The ratio of a burst
-- is a number of tenths; `tenths` is `round(a / b, 1)` in tenths, and `nearest` is `round(a / b)`.
pub mod Scores
use netlog_ai.Prelude.{
  ℕ, suc, ◌+◌, ◌-◌, ◌*◌, ◌/◌, min, ◌&&◌, ◌||◌, not, String, Bool, true, false, Option, none, some,
  List, [], ◌∷◌, leb, ltb, ◌==◌, str_eq, if◌then◌else◌, length, keep, take, drop, map, get_elem?,
  last?, Dict, lookup, Pair, PairDict,
}
use netlog_ai.Prelude.Sort.{sort}
use netlog_ai.Stability.{DeviceState, Tracker, or_zero}

pub sum : List ℕ → ℕ
sum [] = 0
sum (n ∷ l) = n + sum l

pub flap_count : DeviceState → ℕ
flap_count st = sum (map (λ row. row.1 / 2) st.transitions)

-- n or 1
abbrev pub or_one : ℕ → ℕ
or_one n = if n == 0 then 1 else n

pub burst_ratio : (ℕ → ℕ → ℕ) → DeviceState → ℕ
burst_ratio tenths st =
    let counts = sort leb (map (λ row. row.1) st.buckets) in
    if ltb (length counts) 3
    then 10
    else tenths (or_zero (last? counts)) (or_one (or_zero (get_elem? counts (length counts / 2))))

pub data Trend : Type 0 where
  rising falling stable : Trend

-- the counts of the halves: ratio >= 1.5, ratio <= 0.67
pub trend_of : ℕ → ℕ → Trend
trend_of first second =
    if leb (3 * first) (2 * second)
    then rising
    else if leb (100 * second) (67 * first)
    then falling
    else stable

-- `before` is the order of the buckets' keys
pub trend : (String → String → Bool) → DeviceState → Trend
trend before st =
    let counts = map (λ row. row.1) (sort (λ a b. before a.0 b.0) st.buckets) in
    let half = length counts / 2 in
    if ltb (length counts) 4
    then stable
    else trend_of (or_one (sum (take half counts))) (sum (drop half counts))

-- what a burst costs
pub burst_cost : ℕ → ℕ
burst_cost burst =
    if leb 100 burst then 20 else if leb 50 burst then 12 else if leb 30 burst then 6 else 0

pub score : DeviceState → ℕ → ℕ → ℕ
score st flaps burst =
    100 - min (flaps * 6) 35 - min (st.criticals * 5) 25 - min st.highs 15 - burst_cost burst

pub data Risk : Type 0 where
  high medium low : Risk

abbrev pub is_rising : Trend → Bool
is_rising rising = true
is_rising falling = false
is_rising stable = false

pub risk : ℕ → Trend → Risk
risk n t =
    if ltb n 50 || (ltb n 70 && is_rising t)
    then high
    else if ltb n 70 || is_rising t
    then medium
    else low

pub record Device : Type 0 where
  pub hostname : String
  pub score : ℕ
  pub flaps : ℕ
  -- the worst of the entities that flapped, as (class, id)
  pub worst : Pair
  pub criticals : ℕ
  pub highs : ℕ
  pub events : ℕ
  pub burst_ratio : ℕ
  pub trend : Trend
  pub risk_24h : Risk

-- max(flapped, key=flapped.get): the first of the greatest
pub greatest : Pair × ℕ → PairDict ℕ → Pair
greatest best [] = best.0
greatest best (row ∷ l) = greatest (if ltb best.1 row.1 then row else best) l

abbrev pub worst_of : PairDict ℕ → Pair
worst_of [] = ("", "")
worst_of (row ∷ l) = greatest row l

pub device_row : (ℕ → ℕ → ℕ) → (String → String → Bool) → String × DeviceState → Device
device_row tenths before (host, st) =
    let flaps = flap_count st in
    let burst = burst_ratio tenths st in
    let t = trend before st in
    record {
      hostname = host;
      score = score st flaps burst;
      flaps = flaps;
      worst = worst_of (keep (λ row. leb 2 row.1) st.transitions);
      criticals = st.criticals;
      highs = st.highs;
      events = st.total;
      burst_ratio = burst;
      trend = t;
      risk_24h = risk (score st flaps burst) t;
    }

-- (score, -flaps)
pub no_later : Device → Device → Bool
no_later a b = ltb a.score b.score || (a.score == b.score && leb b.flaps a.flaps)

pub record Report : Type 0 where
  pub fabric_score : ℕ
  pub device_count : ℕ
  pub devices : List Device

-- the score of the fabric, weighted by events
pub fabric_score : (ℕ → ℕ → ℕ) → List Device → ℕ
fabric_score nearest [] = 100
fabric_score nearest (d ∷ ds) =
    nearest (sum (map (λ x. x.score * x.events) (d ∷ ds)))
      (or_one (sum (map (λ x. x.events) (d ∷ ds))))

pub report : (ℕ → ℕ → ℕ) → (ℕ → ℕ → ℕ) → (String → String → Bool) → ℕ → Tracker → Report
report tenths nearest before top_n t =
    let devices = sort no_later (map (device_row tenths before) t.devices) in
    record {
      fabric_score = fabric_score nearest devices;
      device_count = length devices;
      devices = take top_n devices;
    }
