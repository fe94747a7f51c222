-- ===== src/Tests/RootCause.antt =====
-- The ranking of a small investigation, and the lookups and scores behind it.
use mathlib.Core.List.{Permᴰ}
use sherlock.Prelude.{
  ℕ, ◌≤◌, ◌≡◌, refl, String, false, true, List, [], ◌∷◌, ◌++◌, Option, none, some, map, arith,
  to_lower, ◌*◌, pos, leb, if◌then◌else◌, insertion_sort, All, length, is_empty, ◌↔◌,
}
use sherlock.Contracts.{Hypothesis, evidence_deploy}
use sherlock.Duration.{sub, flip_negative, distance, minute, hour}
use sherlock.Rca.DeployRule.Window.{proximity_confidence_lem, within_window_far}
use sherlock.Rca.Evidence.{find_evidence_by_kind, evidence_contains, evidence_ids, lookup_evidence}
use sherlock.Rca.Confidence.{score_confidence, score, count_distinct}
use sherlock.Rca.Rules.{
  crash_loop_rule, oom_killed_rule, high_cpu_rule, error_spike_rule, scheduling_failure_rule,
}
use sherlock.Rca.DeployRule.{
  deploy_proximity_rule, blame, best_loop, proximity_confidence, within_window, atoi,
}
use sherlock.Rca.Engine.{
  rank, rank_all, evaluate_all, new_rules, assign_ids, score_all, more_confident,
}
use sherlock.Rca.Engine.NewRules.{rank-IsRanking}
use sherlock.Rca.Engine.Ranking.{IsRanking}
use sherlock.Rca.DeployRule.Backed.{IsBlame, deploy_proximity_rule-IsBlame}
use sherlock.Rca.Engine.NewRules.{rank-eq-none_iff}
use sherlock.Rca.Engine.Ranking.{rank_all-split}
use sherlock.Tests.{unalerted, suspect, evidence, graph, format, ten, sort_hypotheses, new_id}

program : Unit {0}
unfolding rank rank_all evaluate_all crash_loop_rule oom_killed_rule high_cpu_rule error_spike_rule
    scheduling_failure_rule deploy_proximity_rule blame best_loop proximity_confidence within_window
    atoi find_evidence_by_kind evidence_contains evidence_ids lookup_evidence score_confidence score
    count_distinct sub flip_negative insertion_sort to_lower
program = tt

abbrev values : Option (List Hypothesis) → List Hypothesis
values none = []
values (some hs) = hs

abbrev ranked : List Hypothesis
ranked = values (rank sort_hypotheses new_id (new_rules format ten) graph)

-- The crash loop and the deployment.
ranked_confidences :
    map {B = String × ℕ} (λ h. (h.title, h.confidence)) ranked
    ≡ ("Container crash loop detected", 95)
      ∷ ("Recent deployment likely caused the incident", 95)
      ∷ []
unfolding program
ranked_confidences = refl

ranked_lem : rank sort_hypotheses new_id (new_rules format ten) graph ≡ some ranked
unfolding program
ranked_lem = refl

rank-IsRanking_example : IsRanking graph.investigation_data.evidence ranked
rank-IsRanking_example = rank-IsRanking format ten graph sort_hypotheses new_id ranked_lem

-- An investigation with a deployment and no alert.
rank-eq-none_iff_example : (rank sort_hypotheses new_id (new_rules format ten) unalerted ≡ none) ↔ (
    (is_empty (find_evidence_by_kind unalerted.investigation_data.evidence evidence_deploy) ≡ false)
    × (is_empty unalerted.investigation_data.alerts ≡ true))
rank-eq-none_iff_example = rank-eq-none_iff format ten unalerted sort_hypotheses new_id

rank_panics : rank sort_hypotheses new_id (new_rules format ten) unalerted ≡ none
unfolding program
rank_panics = refl

suspect_score : score_confidence suspect evidence ≡ 70
unfolding program
suspect_score = refl

abbrev blamed : List Hypothesis
blamed = values (deploy_proximity_rule format ten graph)

blamed_lem : deploy_proximity_rule format ten graph ≡ some blamed
unfolding program
blamed_lem = refl

deploy_proximity_rule-IsBlame_example : All (IsBlame evidence) blamed
deploy_proximity_rule-IsBlame_example = deploy_proximity_rule-IsBlame format ten graph blamed_lem

rank_all-split_example :
    (kept dropped : List Hypothesis) × (rank_all sort_hypotheses new_id evidence
        (suspect ∷ suspect ∷ [])
      ≡ assign_ids new_id 0 kept)
    × Permᴰ (score_all evidence (suspect ∷ suspect ∷ [])) (kept ++ dropped)
    × (length kept ≤ 5)
    × All (λ k. All (λ d. more_confident d k ≡ false) dropped) kept
rank_all-split_example = rank_all-split sort_hypotheses new_id evidence (suspect ∷ suspect ∷ [])

proximity_confidence_lem_example :
    (proximity_confidence 0 ten ≡ (
      let d = distance ten 0 in
      if leb d (30 * minute)
      then 80
      else if leb d hour
      then 70
      else if leb d (2 * hour)
      then 50
      else 0))
    × (within_window ten 0 (pos hour) ≡ leb (distance ten 0) hour)
proximity_confidence_lem_example = proximity_confidence_lem 0 ten hour (omega arith)

within_window_far_example : within_window 0 63000000000000000000 (pos hour) ≡ true
within_window_far_example = within_window_far 0 63000000000000000000 hour (omega arith)
