-- ===== src/Rca/LlmEngine/Panics.antt =====
-- When the engine of the language model panics.
use sherlock.Prelude.{
  ℕ, zero, suc, ◌≡◌, ◌↔◌, refl, sym, ap, ◌∙◌, inl, inr, String, Bool, true, false, List, [], ◌∷◌,
  Option, none, some, is_empty, str_eq, Bool-cases, ltb, ◌&&◌, Result, ok, err, if◌then◌else◌,
  subst,
}
use sherlock.Contracts.{Attributes, TargetRef, Evidence, InvestigationGraph, NormalizedAlert}
use sherlock.Analysis.{LlmAnalysis}
use sherlock.Answer.{parse_analysis, field_order, field_locs}
use sherlock.Answer.Fields.{InOrder, parse_analysis-InOrder_iff}
use sherlock.FollowUp.{Progress, execute}
use sherlock.FollowUp.Paths.{Returns, execute-Returns}
use sherlock.Rca.LlmEngine.{
  is_deep_evidence_empty, LlmEngine, Passed, count_call, after_deep_parse, deep_answer,
  gathered_answer, deep_passes, finish_passes, alert_labels, after_first_parse, first_answer,
  with_alerts, rank_with_llm, rank_results, rank,
}

-- No panic.
abbrev Gives : {A : Type 0} → Option A → Type 0
Gives {A} o = (a : A) × (o ≡ some a)

module _ {E : Type 0} (e : LlmEngine E)
    (orderly : (pass : ℕ) (content : String)
      → e.complete pass ≡ ok content
      → InOrder (field_locs field_order content)) where
  parse-Gives :
      (pass : ℕ) (content : String) → e.complete pass ≡ ok content → Gives (parse_analysis content)
  parse-Gives pass content h = (parse_analysis-InOrder_iff content).1 (orderly pass content h)

  count_call-Gives : (o : Passed e) → Gives o → Gives (count_call e o)
  count_call-Gives none h = absurd (cc (h.1))
  count_call-Gives (some last) h = (_, refl)

  after_deep_parse-Gives :
      (next : LlmAnalysis → Passed e) (pass : ℕ) (o : Option LlmAnalysis)
      → Gives o
      → ((b : LlmAnalysis) → Gives (next b))
      → Gives (after_deep_parse e next pass o)
  after_deep_parse-Gives next pass none h k = absurd (cc (h.1))
  after_deep_parse-Gives next pass (some b) h k = count_call-Gives (next _) (k _)

  deep_answer-Gives :
      (next : LlmAnalysis → Passed e) (pass : ℕ) (a : LlmAnalysis) (answer : Result E String)
      → e.complete pass ≡ answer
      → ((b : LlmAnalysis) → Gives (next b))
      → Gives (deep_answer e next pass a answer)
  deep_answer-Gives next pass a (err x) h k = (_, refl)
  deep_answer-Gives next pass a (ok content) h k =
      after_deep_parse-Gives next pass (parse_analysis content) (parse-Gives pass content h) k

  gathered_answer-Gives :
      (next : Option Attributes → LlmAnalysis → Passed e) (pass : ℕ) (a : LlmAnalysis)
      (o : Option Progress)
      → Returns o
      → ((m : Attributes) (b : LlmAnalysis) → Gives (next (some m) b))
      → Gives (gathered_answer e next pass a o)
  gathered_answer-Gives next pass a none h k = absurd (cc (h.1))
  gathered_answer-Gives next pass a (some s) h k =
      elim (Bool-cases (is_deep_evidence_empty (some s.deep))) [
        | inl blank ↦ rw blank (_, refl)
        | inr full ↦
            let same : h.0 ≡ s = cc (h.1) in
            let labels : s.labels ≡ some h.2.written.0 =
              ap (λ t. t.labels) (sym same) ∙ h.2.written.1 in
            rw full (
              deep_answer-Gives (next s.labels) pass a (e.complete pass) refl
                (rw labels (k h.2.written.0)))
      ]

  module _ (alert : NormalizedAlert) (targets : List TargetRef) where
    deep_passes-Gives :
        (left pass : ℕ) (m : Attributes) (a : LlmAnalysis)
        → Gives (deep_passes e alert targets left pass (some m) a)
    unfolding deep_passes
    deep_passes-Gives zero pass m a = (_, refl)
    deep_passes-Gives (suc left) pass m a = elim (Bool-cases (is_empty a.follow_ups)) [
      | inl no_requests ↦ rw no_requests (_, refl)
      | inr requests ↦ elim (Bool-cases (ltb 2 pass && str_eq a.confidence "high")) [
        | inl sure ↦ rw (requests, sure) (_, refl)
        | inr unsure ↦
            rw (requests, unsure)
              (gathered_answer-Gives (λ l b. deep_passes e alert targets left (suc pass) l b) pass a
                (execute (e.follow_up pass) alert targets (some m) a.follow_ups)
                (execute-Returns (e.follow_up pass) alert targets m a.follow_ups)
                (λ n b. deep_passes-Gives left (suc pass) n b))
      ]
    ]

    finish_passes-Gives :
        (evidence : List Evidence) (o : Passed e)
        → Gives o
        → Gives (rank_results e (finish_passes e evidence o))
    finish_passes-Gives evidence none h = absurd (cc (h.1))
    finish_passes-Gives evidence (some last) h = (_, refl)

    labelled-Gives :
        (labels : Option Attributes) (left pass : ℕ) (m : Attributes) (a : LlmAnalysis)
        → labels ≡ some m
        → Gives (deep_passes e alert targets left pass labels a)
    labelled-Gives labels left pass m a h =
        subst (λ o. Gives (deep_passes e alert targets left pass o a)) (sym h)
          (deep_passes-Gives left pass m a)

    if-some : (b : Bool) → b ≡ true → (if b then some alert.labels else none) ≡ some alert.labels
    if-some true h = refl
    if-some false h = absurd (cc)

    after_first_parse-Gives :
        (evidence : List Evidence) (o : Option LlmAnalysis)
        → e.has_labels ≡ true
        → Gives o
        → Gives (rank_results e (after_first_parse e targets evidence alert o))
    after_first_parse-Gives evidence none l h = absurd (cc (h.1))
    after_first_parse-Gives evidence (some a) l h =
        finish_passes-Gives evidence _
          (labelled-Gives (alert_labels e alert) _ 2 alert.labels _ (if-some e.has_labels l))

    first_answer-Gives :
        (evidence : List Evidence) (answer : Result E String)
        → e.has_labels ≡ true
        → e.complete 1 ≡ answer
        → Gives (rank_results e (first_answer e targets evidence alert answer))
    first_answer-Gives evidence (err x) l h = (_, refl)
    first_answer-Gives evidence (ok content) l h =
        after_first_parse-Gives evidence (parse_analysis content) l (parse-Gives 1 content h)

  with_alerts-panic_iff :
      (targets : List TargetRef) (evidence : List Evidence) (alerts : List NormalizedAlert)
      → e.has_labels ≡ true
      → (rank_results e (with_alerts e targets evidence alerts) ≡ none) ↔ (is_empty alerts ≡ true)
  with_alerts-panic_iff targets evidence [] l = ((λ h. refl), (λ h. refl))
  with_alerts-panic_iff targets evidence (alert ∷ alerts) l =
      let returned = first_answer-Gives alert targets evidence (e.complete 1) l refl in
      ((λ h. absurd (cc (h, returned.1))), (λ h. absurd (cc)))

  -- Where every answer of the provider has its fields in the order that the parser wants, and the
  -- first alert's label map is not nil, the engine panics exactly when the investigation has no alert.
  pub rank-panic_iff :
      (graph : InvestigationGraph)
      → e.has_labels ≡ true
      → (rank e graph ≡ none) ↔ (is_empty graph.investigation_data.alerts ≡ true)
  unfolding rank rank_with_llm
  rank-panic_iff graph l =
      let d = graph.investigation_data in
      with_alerts-panic_iff d.investigation.targets d.evidence d.alerts l
