-- ===== src/Rca/LlmEngine.antt =====
-- internal/rca/llm_engine.go. The provider and the fallback engine are interfaces of the source, and
-- parameters here: the provider answers by the number of the pass, the fallback by the number of its
-- call, and the collectors and the git provider of the follow-ups by the pass. The prompts,
-- notifications and metrics are left out. `none` is a panic: the first alert is read unchecked, the
-- parser panics on some answers, and a follow-up on an alert with no label map.
pub mod Passes
pub mod Analyses
pub mod Panics
use sherlock.Prelude.{
  ℕ, zero, suc, ◌+◌, ◌-◌, String, Bool, true, false, ◌||◌, ◌&&◌, not, List, [], ◌∷◌, map, Option,
  none, some, is_empty, str_eq, ltb, if◌then◌else◌, codes, Result, ok, err, ℤ, pos, negsuc,
}
use sherlock.Contracts.{
  Attributes, Evidence, Hypothesis, InvestigationGraph, NormalizedAlert, TargetRef,
}
use sherlock.Analysis.{LlmAnalysis, DeepEvidence, map_to_hypotheses, trim_space}
use sherlock.Answer.{parse_analysis}
use sherlock.FollowUp.{Executor, Progress, execute}

abbrev pub is_blank : String → Bool
is_blank s = is_empty (trim_space (codes s))

-- A nil pointer is `none`.
unfoldable pub is_deep_evidence_empty : Option DeepEvidence → Bool
is_deep_evidence_empty none = true
is_deep_evidence_empty (some d) =
    is_empty d.trace_logs
    && is_blank d.extra_logs
    && is_blank d.extra_pod_events
    && is_empty d.extra_source_files
    && is_blank d.custom_query_results

-- `if maxPasses <= 0 { maxPasses = 3 }`
abbrev pub passes_of : ℤ → ℕ
passes_of (pos zero) = 3
passes_of (pos (suc n)) = suc n
passes_of (negsuc n) = 3

pub record LlmEngine (E : Type 0) : Type 0 where
  pub complete : ℕ → Result E String
  pub follow_up : ℕ → Executor E
  pub fallback : ℕ → Result E (List Hypothesis)
  pub max_passes : ℕ
  pub provider_name : String
  -- Whether the label map of the first alert is not nil.
  pub has_labels : Bool
  pub print : ℕ → String
  pub new_id : ℕ → String

-- What a call of the engine returns, and how often it has called the provider and the fallback.
pub record Ranked (E : Type 0) : Type 0 where
  pub result : Result E (List Hypothesis)
  pub provider_calls : ℕ
  pub fallback_calls : ℕ

-- The parts of a pass around its early ends; `next` is the loop from the next pass on, with the label
-- map that the follow-ups leave, and each result counts the calls of the provider.
module _ {E : Type 0} (e : LlmEngine E) where
  abbrev pub Passed : Type 0
  Passed = Option (LlmAnalysis × ℕ)

  abbrev pub count_call : Passed → Passed
  count_call none = none
  count_call (some (last, calls)) = some (last, suc calls)

  abbrev pub after_deep_parse : (LlmAnalysis → Passed) → ℕ → Option LlmAnalysis → Passed
  after_deep_parse next pass none = none
  after_deep_parse next pass (some b) =
      count_call
        (next (record b { pass_count = pass; deep_dive = true; ai_provider = e.provider_name }))

  abbrev pub deep_answer : (LlmAnalysis → Passed) → ℕ → LlmAnalysis → Result E String → Passed
  deep_answer next pass a (err x) = some (a, 1)
  deep_answer next pass a (ok content) = after_deep_parse next pass (parse_analysis content)

  -- `Execute` returns no error.
  abbrev pub gathered_answer :
      (Option Attributes → LlmAnalysis → Passed) → ℕ → LlmAnalysis → Option Progress → Passed
  gathered_answer next pass a none = none
  gathered_answer next pass a (some s) =
      if is_deep_evidence_empty (some s.deep)
      then some (a, 0)
      else deep_answer (next s.labels) pass a (e.complete pass)

  module _ (alert : NormalizedAlert) (targets : List TargetRef) where
    -- The loop from `pass` on, with `left` passes that the bound still allows.
    unfoldable pub deep_passes : ℕ → ℕ → Option Attributes → LlmAnalysis → Passed
    unfolding is_deep_evidence_empty parse_analysis execute
    deep_passes zero pass labels a = some (a, 0)
    deep_passes (suc left) pass labels a =
        let next : Option Attributes → LlmAnalysis → Passed =
          λ l b. deep_passes left (suc pass) l b in
        if is_empty a.follow_ups
        then some (a, 0)
        else if ltb 2 pass && str_eq a.confidence "high"
        then some (a, 0)
        else gathered_answer next pass a
            (execute (e.follow_up pass) alert targets labels a.follow_ups)

  abbrev pub assign_ids : ℕ → List Hypothesis → List Hypothesis
  assign_ids i [] = []
  assign_ids i (h ∷ hs) = record h { id = e.new_id i } ∷ assign_ids (suc i) hs

  abbrev pub lacks_title : List Hypothesis → Bool
  lacks_title [] = true
  lacks_title (h ∷ hs) = str_eq h.title ""

  -- From the last analysis on.
  unfoldable pub finish : List Evidence → LlmAnalysis × ℕ → Ranked E
  unfolding map_to_hypotheses
  finish evidence (a, calls) =
      let hypotheses = assign_ids 0 (map_to_hypotheses e.print a evidence) in
      if lacks_title hypotheses
      then record { result = e.fallback 0; provider_calls = suc calls; fallback_calls = 1 }
      else record { result = ok hypotheses; provider_calls = suc calls; fallback_calls = 0 }

  abbrev pub finish_passes : List Evidence → Passed → Option (Ranked E)
  finish_passes evidence none = none
  finish_passes evidence (some last) = some (finish evidence last)

  abbrev pub alert_labels : NormalizedAlert → Option Attributes
  alert_labels alert = if e.has_labels then some alert.labels else none

  abbrev pub after_first_parse :
      List TargetRef → List Evidence → NormalizedAlert → Option LlmAnalysis → Option (Ranked E)
  after_first_parse targets evidence alert none = none
  after_first_parse targets evidence alert (some a) = finish_passes evidence (
      deep_passes alert targets (e.max_passes - 1) 2 (alert_labels alert)
        (record a { pass_count = 1; ai_provider = e.provider_name }))

  abbrev pub first_answer :
      List TargetRef → List Evidence → NormalizedAlert → Result E String → Option (Ranked E)
  first_answer targets evidence alert (err x) =
      some (record { result = err x; provider_calls = 1; fallback_calls = 0 })
  first_answer targets evidence alert (ok content) =
      after_first_parse targets evidence alert (parse_analysis content)

  abbrev pub with_alerts : List TargetRef → List Evidence → List NormalizedAlert → Option (Ranked E)
  with_alerts targets evidence [] = none
  with_alerts targets evidence (alert ∷ alerts) = first_answer targets evidence alert (e.complete 1)

  unfoldable pub rank_with_llm : InvestigationGraph → Option (Ranked E)
  unfolding deep_passes finish
  rank_with_llm graph =
      let d = graph.investigation_data in with_alerts d.investigation.targets d.evidence d.alerts

  -- Any error falls back to the rules, the fallback's own included.
  abbrev pub or_fallback : Ranked E → Ranked E
  or_fallback r = elim r.result [
    | ok hs ↦ r
    | err x ↦ record r {
      result = e.fallback r.fallback_calls;
      fallback_calls = suc r.fallback_calls;
    }
  ]

  abbrev pub rank_results : Option (Ranked E) → Option (Ranked E)
  rank_results none = none
  rank_results (some r) = some (or_fallback r)

  unfoldable pub rank : InvestigationGraph → Option (Ranked E)
  unfolding rank_with_llm
  rank graph = rank_results (rank_with_llm graph)
