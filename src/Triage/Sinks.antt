-- ===== src/Triage/Sinks.antt =====
-- The per-sink retry state (`_sink_ready`, `_sink_failed`) and the delivery loop `_send`. The jitter
-- `random()` is a parameter, in thousandths; a delay is rounded down to a tick.
pub mod Backoff
pub mod Delivery
use netlog_ai.Prelude.{
  ℕ, ◌+◌, ◌-◌, ◌*◌, ◌/◌, ◌^◌, String, Bool, true, false, Option, none, some, List, [], ◌∷◌, ◌++◌,
  leb, min, if◌then◌else◌, Dict, lookup, insert, erase,
}
use netlog_ai.Triage.Types.{Config}

pub record SinkState : Type 0 where
  pub fails : ℕ
  pub next_try : ℕ

abbrev pub fresh : SinkState
fresh = record { fails = 0; next_try = 0 }

abbrev pub or_fresh : Option SinkState → SinkState
or_fresh none = fresh
or_fresh (some s) = s

abbrev pub state_of : String → Dict SinkState → SinkState
state_of name st = or_fresh (lookup name st)

unfoldable pub sink_ready : String → ℕ → Dict SinkState → Bool
sink_ready name now st = leb (state_of name st).next_try now

-- the delay after the given number of failures in a row, before the jitter
unfoldable pub delay : Config → ℕ → ℕ
delay cfg fails =
    if leb cfg.sink_breaker_threshold fails
    then cfg.sink_backoff_max_s
    else min (cfg.sink_backoff_s * 2 ^ min (fails - 1) 20) cfg.sink_backoff_max_s

-- delay * (0.8 + 0.4 * rand)
unfoldable pub jittered : ℕ → ℕ → ℕ
jittered rand d = d * (4000 + 2 * rand) / 5000

unfoldable pub sink_failed : Config → ℕ → String → ℕ → Dict SinkState → Dict SinkState
sink_failed cfg rand name now st =
    let fails = (state_of name st).fails + 1 in
    insert name (record { fails = fails; next_try = now + jittered rand (delay cfg fails) }) st

-- what a sink answers: (action, ref)
abbrev pub Answer : Type 0
Answer = String × String

-- What `_send` returns, or leaves when it raises `_LeaseGone`.
pub record Sent : Type 0 where
  pub results : List (String × Answer)
  pub failed : List String
  pub states : Dict SinkState
  pub lease_gone : Bool

-- `leader` is the lease check before each sink, `upsert` the sink's call: `none` is any exception.
module _ (cfg : Config) (rand : ℕ) (leader : String → Bool) (upsert : String → Option Answer)
    (now : ℕ) where
  -- the bookkeeping for one answer
  unfoldable pub settle : String → Option Answer → Sent → Sent
  settle name none s = record s {
    failed = s.failed ++ name ∷ [];
    states = sink_failed cfg rand name now s.states;
  }
  settle name (some a) s = record s {
    results = s.results ++ (name, a) ∷ [];
    states = erase name s.states;
  }

  unfoldable pub send_from : List String → Sent → Sent
  send_from [] s = s
  send_from (name ∷ l) s =
      let rest = send_from l (settle name (upsert name) s) in
      if leader name then rest else record s { lease_gone = true }

  unfoldable pub send : List String → Dict SinkState → Sent
  send sinks st =
      send_from sinks (record { results = []; failed = []; states = st; lease_gone = false })
