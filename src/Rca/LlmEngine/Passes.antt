-- ===== src/Rca/LlmEngine/Passes.antt =====
-- How often the engine calls the provider and the fallback, and what it returns.
use sherlock.Prelude.{
  ℕ, zero, suc, ◌-◌, ◌≤◌, ◌≡◌, ◌≢◌, refl, sym, inl, inr, String, arith, List, [], ◌∷◌, map, Option,
  none, some, is_empty, str_eq, str_eq_complete, Bool-cases, OnSome, subst, ltb, ◌&&◌, Result, ok,
  err,
}
use sherlock.Contracts.{
  Attributes, TargetRef, Evidence, Hypothesis, InvestigationGraph, NormalizedAlert,
}
use sherlock.Analysis.{LlmAnalysis, map_to_hypotheses}
use sherlock.Analysis.Mapping.{map_confidence-cases}
use sherlock.Answer.{parse_analysis}
use sherlock.FollowUp.{Progress, execute}
use sherlock.Rca.LlmEngine.{
  is_deep_evidence_empty, LlmEngine, Ranked, Passed, count_call, after_deep_parse, deep_answer,
  gathered_answer, deep_passes, finish, finish_passes, alert_labels, after_first_parse,
  first_answer, with_alerts, rank_with_llm, or_fallback, rank_results, rank,
}

module _ {E : Type 0} (e : LlmEngine E) where
  -- A bound on the calls of some passes.
  abbrev AtMost : ℕ → Passed e → Type 0
  AtMost n = OnSome (λ last. last.1 ≤ n)

  count_call-AtMost : (n : ℕ) (o : Passed e) → AtMost n o → AtMost (suc n) (count_call e o)
  count_call-AtMost n none h = tt
  count_call-AtMost n (some last) h = omega arith

  AtMost-more : (n m : ℕ) (o : Passed e) → n ≤ m → AtMost n o → AtMost m o
  AtMost-more n m none k h = tt
  AtMost-more n m (some last) k h = omega arith

  after_deep_parse-AtMost :
      (next : LlmAnalysis → Passed e) (left pass : ℕ) (o : Option LlmAnalysis)
      → ((b : LlmAnalysis) → AtMost left (next b))
      → AtMost (suc left) (after_deep_parse e next pass o)
  after_deep_parse-AtMost next left pass none h = tt
  after_deep_parse-AtMost next left pass (some b) h = count_call-AtMost left (next _) (h _)

  deep_answer-AtMost :
      (next : LlmAnalysis → Passed e) (left pass : ℕ) (a : LlmAnalysis) (answer : Result E String)
      → ((b : LlmAnalysis) → AtMost left (next b))
      → AtMost (suc left) (deep_answer e next pass a answer)
  deep_answer-AtMost next left pass a (err x) h = omega arith
  deep_answer-AtMost next left pass a (ok content) h =
      after_deep_parse-AtMost next left pass (parse_analysis content) h

  gathered_answer-AtMost :
      (next : Option Attributes → LlmAnalysis → Passed e) (left pass : ℕ) (a : LlmAnalysis)
      (o : Option Progress)
      → ((l : Option Attributes) (b : LlmAnalysis) → AtMost left (next l b))
      → AtMost (suc left) (gathered_answer e next pass a o)
  gathered_answer-AtMost next left pass a none h = tt
  gathered_answer-AtMost next left pass a (some s) h =
      elim (Bool-cases (is_deep_evidence_empty (some s.deep))) [
        | inl blank ↦ rw blank (omega arith)
        | inr full ↦
            rw full (deep_answer-AtMost (next s.labels) left pass a (e.complete pass) (h s.labels))
      ]

  deep_passes-AtMost :
      (alert : NormalizedAlert) (targets : List TargetRef) (left pass : ℕ)
      (labels : Option Attributes) (a : LlmAnalysis)
      → AtMost left (deep_passes e alert targets left pass labels a)
  unfolding deep_passes
  deep_passes-AtMost alert targets zero pass labels a = omega arith
  deep_passes-AtMost alert targets (suc left) pass labels a =
      elim (Bool-cases (is_empty a.follow_ups)) [
        | inl no_requests ↦ rw no_requests (omega arith)
        | inr requests ↦ elim (Bool-cases (ltb 2 pass && str_eq a.confidence "high")) [
          | inl sure ↦ rw (requests, sure) (omega arith)
          | inr unsure ↦
              rw (requests, unsure)
                (gathered_answer-AtMost (λ l b. deep_passes e alert targets left (suc pass) l b)
                  left pass a (execute (e.follow_up pass) alert targets labels a.follow_ups)
                  (λ l b. deep_passes-AtMost alert targets left (suc pass) l b))
        ]
      ]

  -- What the engine may return for this evidence.
  pub data IsOutcome (evidence : List Evidence) (r : Ranked E) : Type 0 where
    answered :
        (h : Hypothesis)
        → r.result ≡ ok (h ∷ [])
        → h.title ≢ ""
        → h.id ≡ e.new_id 0
        → h.supporting ≡ map (λ i. i.id) evidence
        → (40 ≤ h.confidence) × (h.confidence ≤ 85)
        → r.fallback_calls ≡ 0
        → IsOutcome evidence r
    replaced : r.result ≡ e.fallback 0 → r.fallback_calls ≡ 1 → IsOutcome evidence r
    repeated :
        (x : E)
        → e.fallback 0 ≡ err x
        → r.result ≡ e.fallback 1
        → r.fallback_calls ≡ 2
        → IsOutcome evidence r

  fallback-IsOutcome :
      (evidence : List Evidence) (calls : ℕ) (answer : Result E (List Hypothesis))
      → e.fallback 0 ≡ answer
      → IsOutcome evidence
          (or_fallback e (record { result = answer; provider_calls = calls; fallback_calls = 1 }))
  fallback-IsOutcome evidence calls (ok hs) same = replaced (sym same) refl
  fallback-IsOutcome evidence calls (err x) same = repeated x same refl refl

  finish-IsOutcome :
      (evidence : List Evidence) (a : LlmAnalysis) (calls : ℕ)
      → IsOutcome evidence (or_fallback e (finish e evidence (a, calls)))
  unfolding finish map_to_hypotheses
  finish-IsOutcome evidence a calls = elim (Bool-cases (str_eq a.summary "")) [
    | inl blank ↦ rw blank (fallback-IsOutcome evidence (suc calls) (e.fallback 0) refl)
    | inr titled ↦ rw titled (
        answered _ refl (λ same. cc (str_eq_complete a.summary "" same)) refl refl
          (map_confidence-cases a.confidence) refl)
  ]

  finish_passes-IsOutcome :
      (evidence : List Evidence) (o : Passed e)
      → OnSome (IsOutcome evidence) (rank_results e (finish_passes e evidence o))
  finish_passes-IsOutcome evidence none = tt
  finish_passes-IsOutcome evidence (some last) = finish-IsOutcome evidence last.0 last.1

  after_first_parse-IsOutcome :
      (targets : List TargetRef) (evidence : List Evidence) (alert : NormalizedAlert)
      (o : Option LlmAnalysis)
      → OnSome (IsOutcome evidence) (rank_results e (after_first_parse e targets evidence alert o))
  after_first_parse-IsOutcome targets evidence alert none = tt
  after_first_parse-IsOutcome targets evidence alert (some a) = finish_passes-IsOutcome evidence _

  first_answer-IsOutcome :
      (targets : List TargetRef) (evidence : List Evidence) (alert : NormalizedAlert)
      (answer : Result E String)
      → OnSome (IsOutcome evidence) (rank_results e (first_answer e targets evidence alert answer))
  first_answer-IsOutcome targets evidence alert (err x) = replaced refl refl
  first_answer-IsOutcome targets evidence alert (ok content) =
      after_first_parse-IsOutcome targets evidence alert (parse_analysis content)

  or_fallback-calls :
      (result : Result E (List Hypothesis)) (calls fallbacks : ℕ)
      → (or_fallback e (record {
        result = result;
        provider_calls = calls;
        fallback_calls = fallbacks;
      })).provider_calls
        ≡ calls
  or_fallback-calls (ok hs) calls fallbacks = refl
  or_fallback-calls (err x) calls fallbacks = refl

  finish-calls :
      (evidence : List Evidence) (a : LlmAnalysis) (calls : ℕ)
      → (or_fallback e (finish e evidence (a, calls))).provider_calls ≡ suc calls
  unfolding finish map_to_hypotheses
  finish-calls evidence a calls = elim (Bool-cases (str_eq a.summary "")) [
    | inl blank ↦ rw blank (or_fallback-calls (e.fallback 0) (suc calls) 1)
    | inr titled ↦ rw titled refl
  ]

  abbrev WithinPasses : Ranked E → Type 0
  WithinPasses r = (1 ≤ r.provider_calls) × (r.provider_calls ≤ e.max_passes)

  finish_passes-calls :
      (evidence : List Evidence) (o : Passed e)
      → 1 ≤ e.max_passes
      → AtMost (e.max_passes - 1) o
      → OnSome WithinPasses (rank_results e (finish_passes e evidence o))
  finish_passes-calls evidence none p h = tt
  finish_passes-calls evidence (some last) p h =
      let counted = finish-calls evidence last.0 last.1 in
      (omega (arith, counted), omega (arith, counted, p, h))

  after_first_parse-calls :
      (targets : List TargetRef) (evidence : List Evidence) (alert : NormalizedAlert)
      (o : Option LlmAnalysis)
      → 1 ≤ e.max_passes
      → OnSome WithinPasses (rank_results e (after_first_parse e targets evidence alert o))
  after_first_parse-calls targets evidence alert none p = tt
  after_first_parse-calls targets evidence alert (some a) p =
      finish_passes-calls evidence _ p
        (deep_passes-AtMost alert targets (e.max_passes - 1) 2 (alert_labels e alert) _)

  first_answer-calls :
      (targets : List TargetRef) (evidence : List Evidence) (alert : NormalizedAlert)
      (answer : Result E String)
      → 1 ≤ e.max_passes
      → OnSome WithinPasses (rank_results e (first_answer e targets evidence alert answer))
  first_answer-calls targets evidence alert (err x) p = (omega arith, omega arith)
  first_answer-calls targets evidence alert (ok content) p =
      after_first_parse-calls targets evidence alert (parse_analysis content) p

  with_alerts-IsOutcome :
      (targets : List TargetRef) (evidence : List Evidence) (alerts : List NormalizedAlert)
      → OnSome (IsOutcome evidence) (rank_results e (with_alerts e targets evidence alerts))
  with_alerts-IsOutcome targets evidence [] = tt
  with_alerts-IsOutcome targets evidence (alert ∷ alerts) =
      first_answer-IsOutcome targets evidence alert (e.complete 1)

  with_alerts-calls :
      (targets : List TargetRef) (evidence : List Evidence) (alerts : List NormalizedAlert)
      → 1 ≤ e.max_passes
      → OnSome WithinPasses (rank_results e (with_alerts e targets evidence alerts))
  with_alerts-calls targets evidence [] h = tt
  with_alerts-calls targets evidence (alert ∷ alerts) h =
      first_answer-calls targets evidence alert (e.complete 1) h

  -- What the engine returns is one hypothesis, titled, with the first new identifier, citing all
  -- the evidence, and 40 to 85 hundredths sure, without a call of the fallback; or what the fallback
  -- answers at its one call; or what it answers at a second call, which follows a failed one.
  pub rank-IsOutcome :
      (graph : InvestigationGraph) {r : Ranked E}
      → rank e graph ≡ some r
      → IsOutcome graph.investigation_data.evidence r
  unfolding rank rank_with_llm
  rank-IsOutcome graph h =
      let d = graph.investigation_data in
      subst (OnSome (IsOutcome d.evidence)) h
        (with_alerts-IsOutcome d.investigation.targets d.evidence d.alerts)

  -- The provider is called at least once and at most as often as there may be passes, of which there
  -- is at least one.
  pub rank-calls :
      (graph : InvestigationGraph) {r : Ranked E}
      → 1 ≤ e.max_passes
      → rank e graph ≡ some r
      → (1 ≤ r.provider_calls) × (r.provider_calls ≤ e.max_passes)
  unfolding rank rank_with_llm
  rank-calls graph p h =
      let d = graph.investigation_data in
      subst (OnSome WithinPasses) h
        (with_alerts-calls d.investigation.targets d.evidence d.alerts p)
