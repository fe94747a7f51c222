-- ===== src/Retry/Attempts.antt =====
-- How often the provider is called, and what the caller gets.
use sherlock.Prelude.{
  ℕ, zero, suc, ◌+◌, ◌≤◌, ◌<◌, ◌≡◌, refl, ◌∙◌, inl, inr, true, false, Option, none, some, arith,
  Result, ok, err, Bool-cases, Option-cases,
}
use native.Mathlib.Decide.{ℕ_discrete}
use sherlock.Retry.{
  Error, exhausted, is_retryable, retry_loop, complete, after_attempt, last_attempt,
}

module _ {R : Type 0} (inner : ℕ → Result Error R) (done : ℕ → Option Error) where
  -- The attempt failed with an error that is worth another try, and the wait ran its time.
  pub record Retried (i : ℕ) : Type 0 where
    pub error : Error
    pub failed : inner i ≡ err error
    pub worthwhile : is_retryable error ≡ true
    pub waited : done i ≡ none

  -- How the run may end at its last attempt.
  pub data Ends (max_retries i : ℕ) : Result Error R → Type 0 where
    success : (r : R) → inner i ≡ ok r → Ends max_retries i (ok r)
    permanent : (e : Error) → inner i ≡ err e → is_retryable e ≡ false → Ends max_retries i (err e)
    cancelled :
        (e d : Error)
        → inner i ≡ err e
        → is_retryable e ≡ true
        → i < max_retries
        → done i ≡ some d
        → Ends max_retries i (err d)
    gave_up :
        (e : Error)
        → inner i ≡ err e
        → is_retryable e ≡ true
        → i ≡ max_retries
        → Ends max_retries i (err (exhausted max_retries e))

  -- A run from attempt `lo`: all attempts before the last one were retried.
  pub record Run (max_retries lo : ℕ) (result : Result Error R × ℕ) : Type 0 where
    pub last : ℕ
    pub calls : result.1 ≡ suc last
    pub started : lo ≤ last
    pub bounded : last ≤ max_retries
    pub before : (i : ℕ) → lo ≤ i → i < last → Retried i
    pub ends : Ends max_retries last result.0

  ends_now :
      (max_retries i : ℕ) (result : Result Error R)
      → i ≤ max_retries
      → Ends max_retries i result
      → Run max_retries i (result, suc i)
  ends_now max_retries i result h e = record {
    last = i;
    calls = refl;
    started = omega arith;
    bounded = h;
    before = λ j a b. absurd (omega arith);
    ends = e;
  }

  last_attempt-Run :
      (max_retries i : ℕ) (answer : Result Error R)
      → i ≡ max_retries
      → inner i ≡ answer
      → Run max_retries i (last_attempt max_retries inner done i answer)
  last_attempt-Run max_retries i (ok r) h e =
      ends_now max_retries i (ok r) (omega arith) (success r e)
  last_attempt-Run max_retries i (err x) h e = elim (Bool-cases (is_retryable x)) [
    | inl again ↦
        rw again (
          ends_now max_retries i (err (exhausted max_retries x)) (omega arith)
            (gave_up x e again h))
    | inr final ↦ rw final (ends_now max_retries i (err x) (omega arith) (permanent x e final))
  ]

  later :
      (max_retries i : ℕ) (result : Result Error R × ℕ)
      → Retried i
      → Run max_retries (suc i) result
      → Run max_retries i result
  later max_retries i result r run = record {
    last = run.last;
    calls = run.calls;
    started = omega (arith, run.started);
    bounded = run.bounded;
    before = λ j a b. elim (ℕ_discrete j i) [
      | yes same ↦ rw same r
      | no other ↦ run.before j (omega arith) b
    ];
    ends = run.ends;
  }

  after_attempt-Run :
      (max_retries i : ℕ) (rest : Result Error R × ℕ) (answer : Result Error R)
      → i < max_retries
      → inner i ≡ answer
      → Run max_retries (suc i) rest
      → Run max_retries i (after_attempt max_retries inner done i rest answer)
  after_attempt-Run max_retries i rest (ok r) h e run =
      ends_now max_retries i (ok r) (omega arith) (success r e)
  after_attempt-Run max_retries i rest (err x) h e run = elim (Bool-cases (is_retryable x)) [
    | inl again ↦ rw again (elim (Option-cases (done i)) [
      | inl wait ↦ rw wait (
          later max_retries i rest
            (record { error = x; failed = e; worthwhile = again; waited = wait }) run)
      | inr (d, stop) ↦
          rw stop (ends_now max_retries i (err d) (omega arith) (cancelled x d e again h stop))
    ])
    | inr final ↦ rw final (ends_now max_retries i (err x) (omega arith) (permanent x e final))
  ]

  retry_loop-Run :
      (max_retries left i : ℕ)
      → i + left ≡ max_retries
      → Run max_retries i (retry_loop max_retries inner done left i)
  unfolding retry_loop
  retry_loop-Run max_retries zero i h = last_attempt-Run max_retries i (inner i) (omega arith) refl
  retry_loop-Run max_retries (suc left) i h =
      after_attempt-Run max_retries i (retry_loop max_retries inner done left (suc i)) (inner i)
        (omega arith) refl (retry_loop-Run max_retries left (suc i) (omega arith))

  -- The loop always ends: with the provider's first success, its first error that is not worth a
  -- retry, the context's error, or the wrapped last error. Every attempt before the last one failed
  -- with a retryable error and was waited for, and the provider is called at most
  -- `max_retries + 1` times.
  pub complete-Run : (max_retries : ℕ) → Run max_retries 0 (complete max_retries inner done)
  unfolding complete
  complete-Run max_retries = retry_loop-Run max_retries max_retries 0 (omega arith)

  loop_success_now :
      (max_retries left i : ℕ) (r : R)
      → inner i ≡ ok r
      → retry_loop max_retries inner done left i ≡ (ok r, suc i)
  unfolding retry_loop
  loop_success_now max_retries zero i r e = rw e
  loop_success_now max_retries (suc left) i r e = rw e

  loop-Retried :
      (max_retries left i : ℕ)
      → Retried i
      → retry_loop max_retries inner done (suc left) i
        ≡ retry_loop max_retries inner done left (suc i)
  unfolding retry_loop
  loop-Retried max_retries left i t = rw (t.failed, t.worthwhile, t.waited)

  loop_success :
      (max_retries k n left i : ℕ) (r : R)
      → n ≤ left
      → i + n ≡ k
      → ((j : ℕ) → j < k → Retried j)
      → inner k ≡ ok r
      → retry_loop max_retries inner done left i ≡ (ok r, suc k)
  loop_success max_retries k zero left i r h sum all e =
      let same : i ≡ k = omega arith in rw same (loop_success_now max_retries left k r e)
  loop_success max_retries k (suc n) zero i r h sum all e = absurd (omega arith)
  loop_success max_retries k (suc n) (suc left) i r h sum all e =
      loop-Retried max_retries left i (all i (omega arith))
      ∙ loop_success max_retries k n left (suc i) r (omega arith) (omega arith) all e

  -- A success at attempt `k`, after attempts that are all retried, is what the caller gets, and the
  -- provider is called `k + 1` times.
  pub complete_success :
      (max_retries k : ℕ) (r : R)
      → k ≤ max_retries
      → ((i : ℕ) → i < k → Retried i)
      → inner k ≡ ok r
      → complete max_retries inner done ≡ (ok r, suc k)
  unfolding complete
  complete_success max_retries k r h all e =
      loop_success max_retries k k max_retries 0 r h (omega arith) all e
