-- ===== src/Triage/Sinks/Backoff.antt =====
-- The retry delay of a failing sink.
use netlog_ai.Prelude.{
  ℕ, ◌+◌, ◌-◌, ◌*◌, ◌^◌, ◌≤◌, String, ◌≡◌, refl, ap, arith, min, Dict, lookup-insert_self,
}
use native.Mathlib.Nat.{mul-le-mul_left, pow-le-pow_right}
use netlog_ai.Triage.Types.{Config}
use netlog_ai.Triage.Sinks.{SinkState, or_fresh, state_of, delay, jittered, sink_failed}

scaled_mono : (b a c : ℕ) → a ≤ c → b * 2 ^ a ≤ b * 2 ^ c
scaled_mono b a c h = mul-le-mul_left b (pow-le-pow_right (omega arith) h)

delay_mono : (cfg : Config) (m n : ℕ) → m ≤ n → delay cfg m ≤ delay cfg n
unfolding delay
delay_mono cfg m n h =
    ground (arith, scaled_mono cfg.sink_backoff_s (min (m - 1) 20) (min (n - 1) 20) (omega arith))

jittered_bounds : (r d : ℕ) → r ≤ 1000 → (4 * d ≤ 5 * jittered r d + 4) × (5 * jittered r d ≤ 6 * d)
unfolding jittered
jittered_bounds r d h = let p : d * r ≤ d * 1000 = mul-le-mul_left d h in omega (arith, p)

module _ (cfg : Config) (rand now : ℕ) (name : String) (st : Dict SinkState) where
  abbrev pub failures : ℕ
  failures = (state_of name st).fails

  abbrev pub after_failure : SinkState
  after_failure = state_of name (sink_failed cfg rand name now st)

  after_failure_lem :
      after_failure
      ≡ record { fails = failures + 1; next_try = now + jittered rand (delay cfg (failures + 1)) }
  unfolding sink_failed
  after_failure_lem = ap or_fresh (lookup-insert_self name _ st)

  -- A failure is counted, and the next try lies between 0.8 and 1.2 times the delay ahead (the lower end
  -- up to the rounding of less than a tick); the delay never falls from one failure to the next.
  pub sink_failed_backoff :
      rand ≤ 1000
      → (after_failure.fails ≡ failures + 1)
        × (5 * now + 4 * delay cfg (failures + 1) ≤ 5 * after_failure.next_try + 4)
        × (5 * after_failure.next_try ≤ 5 * now + 6 * delay cfg (failures + 1))
        × (delay cfg failures ≤ delay cfg (failures + 1))
  sink_failed_backoff h =
      let (low, high) = jittered_bounds rand (delay cfg (failures + 1)) h in
      rw after_failure_lem (
        refl,
        omega (arith, low),
        omega (arith, high),
        delay_mono cfg failures (failures + 1) (omega arith),
      )

  -- A sink that has now failed at least as often in a row as the breaker's threshold waits the maximum
  -- delay, give or take the jitter, whatever its number of failures.
  pub sink_failed_breaker :
      rand ≤ 1000
      → cfg.sink_breaker_threshold ≤ failures + 1
      → (5 * now + 4 * cfg.sink_backoff_max_s ≤ 5 * after_failure.next_try + 4)
        × (5 * after_failure.next_try ≤ 5 * now + 6 * cfg.sink_backoff_max_s)
  sink_failed_breaker h open' =
      let (_, low, high, _) = sink_failed_backoff h in
      let full : delay cfg (failures + 1) ≡ cfg.sink_backoff_max_s = unfold delay in ground arith in
      (rw full at low, rw full at high)
