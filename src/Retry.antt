-- ===== src/Retry.antt =====
-- internal/llm/retry.go. The provider is a function from the number of the attempt to its answer, and
-- the wait between two attempts ends by the delay or by the context (`some e`). The delay itself,
-- with its random jitter, is not modelled.
pub mod Attempts
use sherlock.Prelude.{
  ℕ, zero, suc, ◌+◌, ◌-◌, String, Bool, true, false, ◌&&◌, ◌||◌, Option, none, some, ltb, leb, ◌==◌,
  if◌then◌else◌, ℤ, pos, negsuc, Result, ok, err,
}

pub record LlmError : Type 0 where
  pub provider : String
  pub status_code : ℕ
  pub message : String
  pub retryable : Bool

-- The errors that a caller can tell apart; `exhausted` wraps the last one with `%w`.
pub data Error : Type 0 where
  llm : LlmError → Error
  deadline_exceeded : Error
  canceled : Error
  other : String → Error
  exhausted : ℕ → Error → Error

unfoldable pub new_llm_error : String → ℕ → String → LlmError
new_llm_error provider status_code message = record {
  provider = provider;
  status_code = status_code;
  message = message;
  retryable = status_code == 429 || (leb 500 status_code && ltb status_code 600);
}

-- `errors.As` and `errors.Is` look through the wrapping.
unfoldable pub is_retryable : Error → Bool
is_retryable (llm e) = e.retryable
is_retryable deadline_exceeded = true
is_retryable canceled = false
is_retryable (other s) = false
is_retryable (exhausted n e) = is_retryable e

-- `if maxRetries <= 0 { maxRetries = 3 }`
unfoldable pub retries_of : ℤ → ℕ
retries_of (pos zero) = 3
retries_of (pos (suc n)) = suc n
retries_of (negsuc n) = 3

module _ {R : Type 0} (max_retries : ℕ) (inner : ℕ → Result Error R) (done : ℕ → Option Error) where
  -- What follows an attempt: the result, and how many calls the provider has had. `rest` is the
  -- loop from the next attempt on, and is there only while `attempt < maxRetries`.
  abbrev pub after_wait : ℕ → Result Error R × ℕ → Option Error → Result Error R × ℕ
  after_wait attempt rest (some e) = (err e, suc attempt)
  after_wait attempt rest none = rest

  abbrev pub after_attempt : ℕ → Result Error R × ℕ → Result Error R → Result Error R × ℕ
  after_attempt attempt rest (ok r) = (ok r, suc attempt)
  after_attempt attempt rest (err e) =
      if is_retryable e then after_wait attempt rest (done attempt) else (err e, suc attempt)

  abbrev pub last_attempt : ℕ → Result Error R → Result Error R × ℕ
  last_attempt attempt (ok r) = (ok r, suc attempt)
  last_attempt attempt (err e) =
      if is_retryable e then (err (exhausted max_retries e), suc attempt) else (err e, suc attempt)

  -- The loop from `attempt` on, with `left` more attempts after it.
  unfoldable pub retry_loop : ℕ → ℕ → Result Error R × ℕ
  unfolding is_retryable
  retry_loop zero attempt = last_attempt attempt (inner attempt)
  retry_loop (suc left) attempt =
      let rest = retry_loop left (suc attempt) in after_attempt attempt rest (inner attempt)

  unfoldable pub complete : Result Error R × ℕ
  unfolding retry_loop
  complete = retry_loop max_retries 0
