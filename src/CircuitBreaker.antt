-- ===== src/CircuitBreaker.antt =====
-- internal/llm/circuitbreaker.go. A call is two critical sections with the provider's call between
-- them: `admit`, and then `record_failure` or `record_success`. Failures are counted without bound.
pub mod Steps
pub mod Calls
use sherlock.Prelude.{
  ℕ, zero, suc, ◌+◌, Bool, true, false, ltb, leb, if◌then◌else◌, ℤ, pos, negsuc, ltb_ℤ, Result, ok,
  err,
}
use sherlock.Contracts.{Time}
use sherlock.Duration.{Duration, sub, second}

pub data CircuitState : Type 0 where
  closed open_circuit half_open : CircuitState

pub record Breaker : Type 0 where
  pub state : CircuitState
  pub failures : ℕ
  pub last_failure : Time
  pub fail_threshold : ℕ
  pub reset_timeout : Duration

-- `if n <= 0 { n = d }`
abbrev pub or_default : ℤ → ℕ → ℕ
or_default (pos zero) d = d
or_default (pos (suc n)) d = suc n
or_default (negsuc n) d = d

unfoldable pub new_breaker : ℤ → Duration → Breaker
new_breaker fail_threshold reset_timeout = record {
  state = closed;
  failures = 0;
  last_failure = 0;
  fail_threshold = or_default fail_threshold 5;
  reset_timeout = pos (or_default reset_timeout 30000000000);
}

-- The first critical section: the state, and whether the call goes to the provider.
abbrev pub admit_in : CircuitState → Time → Breaker → Breaker × Bool
admit_in closed now b = (b, true)
admit_in half_open now b = (b, true)
admit_in open_circuit now b =
    if ltb_ℤ b.reset_timeout (sub now b.last_failure)
    then (record b { state = half_open }, true)
    else (b, false)

unfoldable pub admit : Time → Breaker → Breaker × Bool
admit now b = admit_in b.state now b

unfoldable pub record_failure : Time → Breaker → Breaker
record_failure now b =
    let counted = record b { failures = b.failures + 1; last_failure = now } in
    if leb b.fail_threshold (b.failures + 1)
    then record counted { state = open_circuit }
    else counted

unfoldable pub record_success : Breaker → Breaker
record_success b = record b { failures = 0; state = closed }

module _ {E R : Type 0} (fallback : E) where
  -- The second critical section, on the provider's answer.
  abbrev pub settle : Time → Breaker → Result E R → Breaker × Result E R
  settle now b (ok r) = (record_success b, ok r)
  settle now b (err e) = (record_failure now b, err e)

  -- A call alone: it starts at `now`, and the provider answers at `later`. The last field tells
  -- whether the provider was called.
  unfoldable pub complete : Time → Time → Result E R → Breaker → Breaker × Result E R × Bool
  unfolding admit record_failure record_success
  complete now later answer b =
      let (b', passes) = admit now b in
      if passes
      then (let (b'', result) = settle later b' answer in (b'', result, true))
      else (b', err fallback, false)
