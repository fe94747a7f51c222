-- ===== src/Rca/DeployRule/Backed.antt =====
-- The hypothesis of the deploy rule cites deployments first, and only collected evidence.
use sherlock.Prelude.{
  ℕ, ◌+◌, ◌≤◌, ◌≡◌, refl, ◌⊎◌, ◌↔◌, String, Bool, true, false, List, [], ◌∷◌, ◌++◌, Option, none,
  some, arith, if◌then◌else◌, ltb, ◌==◌, All, All-append, is_empty, inl, inr, Bool-cases, subst,
  OnSome,
}
use sherlock.Contracts.{
  Evidence, Hypothesis, NormalizedAlert, InvestigationGraph, Time, evidence_log, evidence_metric,
  evidence_deploy, evidence_git_change, cause_deploy,
}
use sherlock.Rca.Evidence.{find_evidence_by_kind, evidence_ids}
use sherlock.Rca.Evidence.Listed.{IsListed, AllListed, AllListed-find, All-evidence_ids}
use sherlock.Rca.Rules.Backed.{IsBacked}
use sherlock.Rca.DeployRule.{
  Backing, with_alerts, add_git_change, add_git_changes, add_first, is_close_log, is_later_metric,
  blame, best_loop, deploy_proximity_rule, proximity_confidence,
}

-- A confidence of at least `c`, and IDs that all satisfy `P`, at least one.
abbrev Holds : ℕ → (String → Type 0) → Backing → Type 0
Holds c P b = (c ≤ b.0) × (All P b.1 × (is_empty b.1 ≡ false))

is_empty-snoc : (xs ys : List String) → is_empty xs ≡ false → is_empty (xs ++ ys) ≡ false
is_empty-snoc [] ys h = cc
is_empty-snoc (x ∷ xs) ys h = refl

module _ (c : ℕ) (P : String → Type 0) where
  Holds-snoc :
      (b b' : ℕ) (ids : List String) (id : String)
      → b ≤ b'
      → P id
      → Holds c P (b, ids)
      → Holds c P (b', ids ++ id ∷ [])
  Holds-snoc b b' ids id le p h =
      (omega arith, (All-append P ids (id ∷ []) h.1.0 (p, tt), is_empty-snoc ids (id ∷ []) h.1.1))

  git_change-Holds :
      (b : Backing) (gc : Evidence) → P gc.id → Holds c P b → Holds c P (add_git_change b gc)
  unfolding add_git_change
  git_change-Holds (b, ids) gc p h = Holds-snoc b _ ids gc.id (ground arith) p h

  git_changes-Holds :
      (gcs : List Evidence) (b : Backing)
      → All (λ e. P e.id) gcs
      → Holds c P b
      → Holds c P (add_git_changes b gcs)
  unfolding add_git_changes
  git_changes-Holds [] b ps h = h
  git_changes-Holds (gc ∷ gcs) b ps h =
      git_changes-Holds gcs (add_git_change b gc) ps.1 (git_change-Holds b gc ps.0 h)

  first-Holds :
      (test : Evidence → Bool) (b : Backing) (es : List Evidence)
      → All (λ e. P e.id) es
      → Holds c P b
      → Holds c P (add_first test b es)
  unfolding add_first
  first-Holds test b [] ps h = h
  first-Holds test (b, ids) (e ∷ es) ps h = elim (Bool-cases (test e)) [
    | inl yes_test ↦ rw yes_test (Holds-snoc b (b + 5) ids e.id (omega arith) ps.0 h)
    | inr no_test ↦ rw no_test (first-Holds test (b, ids) es ps.1 h)
  ]

-- A confidence that a distance of two hours or less gives, or none.
abbrev IsProximity : ℕ → Type 0
IsProximity c = (c ≡ 0) ⊎ (50 ≤ c)

proximity_confidence_cases :
    (deploy_time alert_time : Time) → IsProximity (proximity_confidence deploy_time alert_time)
unfolding proximity_confidence
proximity_confidence_cases deploy_time alert_time = ground arith

best_loop_cases :
    (alert_time : Time) (ds : List Evidence) (best : Option Evidence × ℕ)
    → IsProximity best.1
    → IsProximity (best_loop alert_time best ds).1
unfolding best_loop
best_loop_cases alert_time [] best h = h
best_loop_cases alert_time (d ∷ ds) (best, conf) h =
    best_loop_cases alert_time ds
      (if ltb conf (proximity_confidence d.observed_at_from alert_time)
        then (some d, proximity_confidence d.observed_at_from alert_time)
        else (best, conf))
      (ground (arith, proximity_confidence_cases d.observed_at_from alert_time))

-- A hypothesis of the rule: backed by evidence, a deployment, and at 50 to 95 hundredths.
pub record IsBlame (evidence : List Evidence) (h : Hypothesis) : Type 0 where
  pub backed : IsBacked evidence h
  pub deployed : h.cause_category ≡ cause_deploy
  pub sure : 50 ≤ h.confidence
  pub capped : h.confidence ≤ 95

cites-ids : (xs : List Evidence) → is_empty xs ≡ false → is_empty (evidence_ids xs) ≡ false
unfolding evidence_ids
cites-ids [] h = cc
cites-ids (x ∷ xs) h = refl

module _ (format : Time → String) (evidence deploys : List Evidence)
    (listed : AllListed evidence deploys) (some_deploy : is_empty deploys ≡ false) where
  -- What the three loops leave, from a confidence `c`.
  loops-Hold :
      (best : Evidence) (c : ℕ)
      → Holds c (IsListed evidence) (
          add_first
            (is_later_metric best)
            (add_first
              (is_close_log best)
              (add_git_changes
                (c, evidence_ids deploys)
                (find_evidence_by_kind evidence evidence_git_change))
              (find_evidence_by_kind evidence evidence_log))
            (find_evidence_by_kind evidence evidence_metric))
  loops-Hold best c =
      first-Holds c (IsListed evidence) (is_later_metric best) _ _
        (AllListed-find evidence evidence_metric)
        (first-Holds c (IsListed evidence) (is_close_log best) _ _
          (AllListed-find evidence evidence_log)
          (git_changes-Holds c (IsListed evidence) _ _ (AllListed-find evidence evidence_git_change)
            (
              omega arith,
              (All-evidence_ids evidence deploys listed, cites-ids deploys some_deploy),
            )))

  blame-IsBlame :
      (best : Option Evidence × ℕ)
      → IsProximity best.1
      → All (IsBlame evidence) (blame format evidence deploys best)
  unfolding blame
  blame-IsBlame (none, c) h = tt
  blame-IsBlame (some best, c) h = elim (Bool-cases (c == 0)) [
    | inl zero_c ↦ rw zero_c tt
    | inr pos_c ↦
        let held = loops-Hold best c in
        rw pos_c (
          record {
            backed = record { cites = held.1.1; listed = held.1.0; uncontradicted = refl };
            deployed = refl;
            sure = ground (arith, held.0);
            capped = ground arith;
          },
          tt,
        )
  ]

  with_alerts-IsBlame :
      (now : Time) (alerts : List NormalizedAlert)
      → OnSome (All (IsBlame evidence)) (with_alerts format now evidence deploys alerts)
  with_alerts-IsBlame now [] = tt
  with_alerts-IsBlame now (a ∷ alerts) =
      blame-IsBlame _ (best_loop_cases _ deploys (none, 0) (inl refl))

-- The rule panics exactly when there is a deployment and no alert.
pub deploy_proximity_rule-eq-none_iff :
    (format : Time → String) (now : Time) (graph : InvestigationGraph)
    → (deploy_proximity_rule format now graph ≡ none) ↔ (
        (is_empty (find_evidence_by_kind graph.investigation_data.evidence evidence_deploy) ≡ false)
        × (is_empty graph.investigation_data.alerts ≡ true))
unfolding deploy_proximity_rule
deploy_proximity_rule-eq-none_iff format now graph = ground arith

-- Whatever the rule returns is backed by collected evidence, blames the deployment, and has a
-- confidence of 50 to 95 hundredths.
pub deploy_proximity_rule-IsBlame :
    (format : Time → String) (now : Time) (graph : InvestigationGraph) {hs : List Hypothesis}
    → deploy_proximity_rule format now graph ≡ some hs
    → All (IsBlame graph.investigation_data.evidence) hs
unfolding deploy_proximity_rule
deploy_proximity_rule-IsBlame format now graph {hs} h =
    subst (OnSome (All (IsBlame evidence))) h (elim (Bool-cases (is_empty deploys)) [
      | inl no_deploy ↦ rw no_deploy tt
      | inr some_deploy ↦ rw some_deploy (
          with_alerts-IsBlame format evidence deploys (AllListed-find evidence evidence_deploy)
            some_deploy now graph.investigation_data.alerts)
    ])
  where
    evidence : List Evidence
    evidence = graph.investigation_data.evidence

    deploys : List Evidence
    deploys = find_evidence_by_kind evidence evidence_deploy
