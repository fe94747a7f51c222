-- ===== src/Rca/Engine/NewRules.antt =====
-- `Rank` with the rules that `New` registers.
use sherlock.Prelude.{
  ℕ, ◌≡◌, refl, ◌↔◌, String, true, false, List, [], ◌∷◌, Option, none, some, arith, All, All-imp,
  is_empty, SortSlice, OnSome, Option-cases, inl, inr, subst,
}
use sherlock.Contracts.{Evidence, Hypothesis, InvestigationGraph, Time, evidence_deploy}
use sherlock.Rca.Evidence.{find_evidence_by_kind}
use sherlock.Rca.Rules.Backed.{
  IsBacked, crash_loop_rule-IsBacked, oom_killed_rule-IsBacked, high_cpu_rule-IsBacked,
  error_spike_rule-IsBacked, scheduling_failure_rule-IsBacked,
}
use sherlock.Rca.DeployRule.{deploy_proximity_rule}
use sherlock.Rca.DeployRule.Backed.{
  deploy_proximity_rule-eq-none_iff, deploy_proximity_rule-IsBlame, IsBlame,
}
use sherlock.Rca.Engine.{Rule, more_confident, new_rules, evaluate_all, rank_results, rank}
use sherlock.Rca.Engine.Ranking.{IsRanking, AllBacked-append, rank_results-IsRanking}

module _ (format : Time → String) (now : Time) (graph : InvestigationGraph) where
  deploy-IsBacked :
      OnSome
        (All (IsBacked graph.investigation_data.evidence))
        (deploy_proximity_rule format now graph)
  deploy-IsBacked = elim (Option-cases (deploy_proximity_rule format now graph)) [
    | inl panics ↦ rw panics tt
    | inr (hs, returns) ↦ rw returns (
        All-imp (IsBlame graph.investigation_data.evidence)
          (IsBacked graph.investigation_data.evidence) hs (λ h b. b.backed)
          (deploy_proximity_rule-IsBlame format now graph returns))
  ]

  -- Rules that only return backed hypotheses have a backed list together.
  evaluate_all-IsBacked :
      (rules : List Rule)
      → All
          (λ r. OnSome (All (IsBacked graph.investigation_data.evidence)) (r.evaluate graph))
          rules
      → OnSome (All (IsBacked graph.investigation_data.evidence)) (evaluate_all rules graph)
  unfolding evaluate_all
  evaluate_all-IsBacked [] h = tt
  evaluate_all-IsBacked (r ∷ rs) h =
      AllBacked-append graph.investigation_data.evidence (r.evaluate graph) (evaluate_all rs graph)
        h.0 (evaluate_all-IsBacked rs h.1)

  new_rules-IsBacked :
      OnSome
        (All (IsBacked graph.investigation_data.evidence))
        (evaluate_all (new_rules format now) graph)
  new_rules-IsBacked =
      let e = graph.investigation_data.evidence in
      evaluate_all-IsBacked (new_rules format now) (
        crash_loop_rule-IsBacked e,
        (
          oom_killed_rule-IsBacked e,
          (
            high_cpu_rule-IsBacked e,
            (
              error_spike_rule-IsBacked e,
              (scheduling_failure_rule-IsBacked e, (deploy-IsBacked, tt)),
            ),
          ),
        ),
      )

  evaluate_all-eq-none_iff :
      (evaluate_all (new_rules format now) graph ≡ none)
      ↔ (deploy_proximity_rule format now graph ≡ none)
  unfolding evaluate_all
  evaluate_all-eq-none_iff = ground arith

  module _ (s : SortSlice Hypothesis more_confident) (new_id : ℕ → String) where
    rank_results-eq-none_iff :
        (evidence : List Evidence) (o : Option (List Hypothesis))
        → (rank_results s new_id evidence o ≡ none) ↔ (o ≡ none)
    rank_results-eq-none_iff evidence none = ((λ e. refl), (λ e. refl))
    rank_results-eq-none_iff evidence (some hs) = ground arith

    -- `Rank` with the built-in rules panics exactly when a deployment was collected and the
    -- investigation has no alert.
    pub rank-eq-none_iff : (rank s new_id (new_rules format now) graph ≡ none) ↔ (
        (is_empty (find_evidence_by_kind graph.investigation_data.evidence evidence_deploy) ≡ false)
        × (is_empty graph.investigation_data.alerts ≡ true))
    unfolding rank
    rank-eq-none_iff = ground (
      arith,
      rank_results-eq-none_iff graph.investigation_data.evidence
          (evaluate_all (new_rules format now) graph),
      evaluate_all-eq-none_iff,
      deploy_proximity_rule-eq-none_iff format now graph,
    )

    -- Whatever `Rank` returns with the built-in rules is at most five hypotheses, in descending order
    -- of confidence, each of at most 95 hundredths and citing at least one ID, all of collected
    -- evidence.
    pub rank-IsRanking :
        {hs : List Hypothesis}
        → rank s new_id (new_rules format now) graph ≡ some hs
        → IsRanking graph.investigation_data.evidence hs
    unfolding rank
    rank-IsRanking h = subst (OnSome (IsRanking graph.investigation_data.evidence)) h (
        rank_results-IsRanking s new_id graph.investigation_data.evidence
          (evaluate_all (new_rules format now) graph) new_rules-IsBacked)
