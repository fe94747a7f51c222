-- ===== src/Rca/Engine.antt =====
-- internal/rca/engine.go. `none` is a panic in a rule. `sort.Slice` and the UUIDs are parameters.
pub mod Ranking
pub mod NewRules
use sherlock.Prelude.{
  ℕ, suc, String, Bool, List, [], ◌∷◌, ◌++◌, map, Option, none, some, ltb, take, SortSlice,
}
use sherlock.Contracts.{Evidence, Hypothesis, InvestigationGraph, Time}
use sherlock.Rca.Confidence.{score_confidence}
use sherlock.Rca.Rules.{
  crash_loop_rule, oom_killed_rule, high_cpu_rule, error_spike_rule, scheduling_failure_rule,
}
use sherlock.Rca.DeployRule.{deploy_proximity_rule}

pub record Rule : Type 0 where
  pub name : String
  pub evaluate : InvestigationGraph → Option (List Hypothesis)

-- The comparison that `Rank` sorts by: descending confidence.
abbrev pub more_confident : Hypothesis → Hypothesis → Bool
more_confident h k = ltb k.confidence h.confidence

abbrev pub evidence_rule : String → (List Evidence → List Hypothesis) → Rule
evidence_rule name f = record {
  name = name;
  evaluate = λ graph. some (f graph.investigation_data.evidence);
}

-- `New` with its calls of `RegisterRule`.
abbrev pub new_rules : (Time → String) → Time → List Rule
new_rules format now =
    evidence_rule "crash_loop" crash_loop_rule
    ∷ evidence_rule "oom_killed" oom_killed_rule
    ∷ evidence_rule "high_cpu" high_cpu_rule
    ∷ evidence_rule "error_spike" error_spike_rule
    ∷ evidence_rule "scheduling_failure" scheduling_failure_rule
    ∷ record { name = "deploy_proximity"; evaluate = deploy_proximity_rule format now }
    ∷ []

abbrev pub append_results :
    Option (List Hypothesis) → Option (List Hypothesis) → Option (List Hypothesis)
append_results none rest = none
append_results (some hs) none = none
append_results (some hs) (some rest) = some (hs ++ rest)

unfoldable pub evaluate_all : List Rule → InvestigationGraph → Option (List Hypothesis)
evaluate_all [] graph = some []
evaluate_all (r ∷ rs) graph = append_results (r.evaluate graph) (evaluate_all rs graph)

unfoldable pub rescore : List Evidence → Hypothesis → Hypothesis
rescore evidence h = record h { confidence = score_confidence h evidence }

-- The loop that replaces each confidence by its score.
unfoldable pub score_all : List Evidence → List Hypothesis → List Hypothesis
unfolding rescore
score_all evidence hs = map (rescore evidence) hs

unfoldable pub assign_ids : (ℕ → String) → ℕ → List Hypothesis → List Hypothesis
assign_ids new_id i [] = []
assign_ids new_id i (h ∷ hs) = record h { id = new_id i } ∷ assign_ids new_id (suc i) hs

module _ (s : SortSlice Hypothesis more_confident) (new_id : ℕ → String) where
  unfoldable pub rank_all : List Evidence → List Hypothesis → List Hypothesis
  unfolding score_all assign_ids
  rank_all evidence hypotheses =
      take 5 (assign_ids new_id 0 (s.sort (score_all evidence hypotheses)))

  abbrev pub rank_results : List Evidence → Option (List Hypothesis) → Option (List Hypothesis)
  rank_results evidence none = none
  rank_results evidence (some hypotheses) = some (rank_all evidence hypotheses)

  unfoldable pub rank : List Rule → InvestigationGraph → Option (List Hypothesis)
  rank rules graph = rank_results graph.investigation_data.evidence (evaluate_all rules graph)
