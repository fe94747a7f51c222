-- ===== src/CircuitBreaker/Calls.antt =====
-- Calls one after the other.
use sherlock.Prelude.{
  ◌+◌, ◌<◌, ◌≤◌, inl, inr, Bool-cases, ltb_ℤ, ltb, if◌then◌else◌, Bool, ◌≡◌, ap, ◌∙◌, refl, true,
  false, arith, List, [], ◌∷◌, length, Result, ok, err, ◌≤ℤ◌, ◌<ℤ◌,
}
use sherlock.Contracts.{Time}
use sherlock.Duration.{sub}
use sherlock.CircuitBreaker.{closed, open_circuit, Breaker, complete}
use sherlock.CircuitBreaker.Steps.{IsValid}

module _ {E R : Type 0} (fallback : E) where
  -- What a call does at an open breaker, by the time since the last failure and the answer.
  pub data OpenCall (b : Breaker) (now later : Time) (answer : Result E R)
      : Breaker × Result E R × Bool → Type 0 where
    refused :
        (sub now b.last_failure ≤ℤ b.reset_timeout)
        → OpenCall b now later answer (b, err fallback, false)
    closes :
        (r : R)
        → (b.reset_timeout <ℤ sub now b.last_failure)
        → answer ≡ ok r
        → OpenCall b now later answer (record b { state = closed; failures = 0 }, ok r, true)
    reopens :
        (e : E)
        → (b.reset_timeout <ℤ sub now b.last_failure)
        → answer ≡ err e
        → OpenCall b now later answer (
          record b { state = open_circuit; failures = b.failures + 1; last_failure = later },
          err e,
          true,
        )

  refused_lem :
      (b : Breaker) (now later : Time) (answer : Result E R)
      → b.state ≡ open_circuit
      → (sub now b.last_failure ≤ℤ b.reset_timeout)
      → complete fallback now later answer b ≡ (b, err fallback, false)
  unfolding complete
  refused_lem b now later answer o early = ground arith

  closes_lem :
      (b : Breaker) (now later : Time) (r : R)
      → b.state ≡ open_circuit
      → (b.reset_timeout <ℤ sub now b.last_failure)
      → complete fallback now later (ok r) b
        ≡ (record b { state = closed; failures = 0 }, ok r, true)
  unfolding complete
  closes_lem b now later r o late = ground arith

  reopens_lem :
      (b : Breaker) (now later : Time) (e : E)
      → IsValid b
      → b.state ≡ open_circuit
      → (b.reset_timeout <ℤ sub now b.last_failure)
      → complete {R = R} fallback now later (err e) b ≡ (
        record b { state = open_circuit; failures = b.failures + 1; last_failure = later },
        err e,
        true,
      )
  unfolding complete
  reopens_lem b now later e v o late = ground arith

  late-OpenCall :
      (b : Breaker) (now later : Time) (answer : Result E R)
      → IsValid b
      → b.state ≡ open_circuit
      → (b.reset_timeout <ℤ sub now b.last_failure)
      → OpenCall b now later answer (complete fallback now later answer b)
  late-OpenCall b now later (ok r) v o late =
      rw (closes_lem b now later r o late) (closes r late refl)
  late-OpenCall b now later (err e) v o late =
      rw (reopens_lem b now later e v o late) (reopens e late refl)

  -- Until the timeout has passed since the last failure, an open breaker answers with the fallback
  -- error, does not call the provider, and stays as it is; afterwards one call goes through, and
  -- its success closes the breaker and its failure opens it again from the time of the failure.
  pub complete-OpenCall :
      (b : Breaker) (now later : Time) (answer : Result E R)
      → IsValid b
      → b.state ≡ open_circuit
      → OpenCall b now later answer (complete fallback now later answer b)
  complete-OpenCall b now later answer v o =
      elim (Bool-cases (ltb_ℤ b.reset_timeout (sub now b.last_failure))) [
        | inl late ↦ late-OpenCall b now later answer v o (ground arith)
        | inr wait ↦
            (let early : sub now b.last_failure ≤ℤ b.reset_timeout = ground arith in
              rw (refused_lem b now later answer o early) (refused early))
      ]

counted-IsValid :
    (b : Breaker) (later : Time)
    → IsValid b
    → b.state ≡ closed
    → b.failures + 1 < b.fail_threshold
    → IsValid (record b { failures = b.failures + 1; last_failure = later })
counted-IsValid b later v c h = record {
  positive = v.positive;
  few = λ _. h;
  many = λ n. absurd (n c);
}

module _ {E : Type 0} (R : Type 0) (fallback : E) where
  -- Calls that all fail with `e`, given by the times of their start and of their failure.
  abbrev pub fail_all : E → List (Time × Time) → Breaker → Breaker
  fail_all e [] b = b
  fail_all e ((now, later) ∷ ts) b = fail_all e ts (complete {R = R} fallback now later (err e) b).0

  fail_below :
      (e : E) (now later : Time) (b : Breaker)
      → b.state ≡ closed
      → b.failures + 1 < b.fail_threshold
      → (complete {R = R} fallback now later (err e) b).0
        ≡ record b { failures = b.failures + 1; last_failure = later }
  unfolding complete
  fail_below e now later b c h = ground arith

  fail_last :
      (e : E) (now later : Time) (b : Breaker)
      → b.state ≡ closed
      → b.failures + 1 ≡ b.fail_threshold
      → (complete {R = R} fallback now later (err e) b).0.state ≡ open_circuit
  unfolding complete
  fail_last e now later b c h = ground arith

  -- A closed breaker stays closed under fewer consecutive failing calls than are missing to the
  -- threshold, and is open after exactly as many as are missing.
  pub fail_all_lem :
      (e : E) (ts : List (Time × Time)) (b : Breaker)
      → IsValid b
      → b.state ≡ closed
      → b.failures + length ts ≤ b.fail_threshold
      → (fail_all e ts b).state
        ≡ (if ltb (b.failures + length ts) b.fail_threshold then closed else open_circuit)
  fail_all_lem e [] b v c h = c ∙ ground (arith, v.few c)
  fail_all_lem e ((now, later) ∷ []) b v c h =
      elim (Bool-cases (ltb (b.failures + 1) b.fail_threshold)) [
        | inl more ↦ rw (more, fail_below e now later b c (ground arith)) c
        | inr last ↦ rw last (fail_last e now later b c (ground arith))
      ]
  fail_all_lem e ((now, later) ∷ t ∷ ts) b v c h =
      let b' : Breaker = record b { failures = b.failures + 1; last_failure = later } in
      ap (λ r. (fail_all e (t ∷ ts) r).state) (fail_below e now later b c (omega arith))
      ∙ (fail_all_lem e (t ∷ ts) b' (counted-IsValid b later v c (omega arith)) c (omega arith)
          ∙ ap (λ n. if ltb n b.fail_threshold then closed else open_circuit) (omega arith))
