-- ===== src/Tests/Services.antt =====
-- Calls of the language model, and the duplicate check.
use sherlock.Prelude.{
  ℕ, zero, suc, ◌<◌, ◌≡◌, refl, String, [], ◌∷◌, Option, none, some, arith, pos, Result, ok, err,
}
use sherlock.Contracts.{ActiveInvestigation}
use sherlock.CircuitBreaker.{Breaker, closed, open_circuit, complete}
use sherlock.CircuitBreaker.Steps.{IsValid}
use sherlock.CircuitBreaker.Calls.{OpenCall, complete-OpenCall, fail_all, fail_all_lem}
use sherlock.Retry as R
use sherlock.Retry.{Error, deadline_exceeded, other, is_retryable}
use sherlock.Retry.Attempts.{Retried, Run, complete-Run, complete_success}
use sherlock.Dedup.{InvestigationLookup, find_active, link_alert, link_failed, duplicate_of, check}
use sherlock.Tests.{alert, ten}

abbrev refused : String
refused = "circuit breaker open"

abbrev down : String
down = "down"

abbrev tripped : Breaker
tripped = record {
  state = open_circuit;
  failures = 1;
  last_failure = ten;
  fail_threshold = 1;
  reset_timeout = pos 30000000000;
}

abbrev healthy : Breaker
healthy = record tripped { state = closed; failures = 0; fail_threshold = 2 }

tripped-IsValid : IsValid tripped
tripped-IsValid = record { positive = omega arith; few = λ e. cc; many = λ e. omega arith }

healthy-IsValid : IsValid healthy
healthy-IsValid = record {
  positive = omega arith;
  few = λ e. omega arith;
  many = λ e. absurd (e refl);
}

abbrev answered : Result String ℕ
answered = ok 7

complete-OpenCall_example :
    OpenCall refused tripped ten ten answered (complete refused ten ten answered tripped)
complete-OpenCall_example = complete-OpenCall refused tripped ten ten answered tripped-IsValid refl

fail_all_lem_example :
    (fail_all ℕ refused down ((ten, ten) ∷ (ten, ten) ∷ []) healthy).state ≡ open_circuit
fail_all_lem_example =
    fail_all_lem ℕ refused down ((ten, ten) ∷ (ten, ten) ∷ []) healthy healthy-IsValid refl
      (omega arith)

-- A provider that times out once, then answers.
abbrev flaky : ℕ → Result Error ℕ
flaky zero = err deadline_exceeded
flaky (suc n) = ok 7

abbrev patient : ℕ → Option Error
patient n = none

complete-Run_example : Run flaky patient 3 0 (R.complete 3 flaky patient)
complete-Run_example = complete-Run flaky patient 3

flaky-Retried : (i : ℕ) → i < 1 → Retried flaky patient i
unfolding is_retryable
flaky-Retried zero h = record {
  error = deadline_exceeded;
  failed = refl;
  worthwhile = refl;
  waited = refl;
}
flaky-Retried (suc i) h = absurd (omega arith)

complete_success_example : R.complete 3 flaky patient ≡ (ok 7, 2)
complete_success_example = complete_success flaky patient 3 1 7 (omega arith) flaky-Retried refl

abbrev known : ActiveInvestigation
known = record {
  id = "i1";
  status = "done";
  headline = "cart is down";
  confidence = 80;
  slack_channel_id = "c";
  slack_thread_ts = "1";
  created_at = ten;
  completed_at = none;
}

abbrev store : InvestigationLookup String
store = record {
  find_active_by_fingerprint = λ fp since. ok (some known);
  link_alert_to_investigation = λ i a. some "no link";
}

check_duplicate : check store 0 ten alert ≡ (
  ok (duplicate_of known),
  find_active "f1" ten ∷ link_alert "i1" "a1" ∷ link_failed "i1" "a1" ∷ [],
)
unfolding check
check_duplicate = refl
