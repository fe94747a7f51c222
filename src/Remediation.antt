-- ===== src/Remediation.antt =====
-- internal/remediation: policies and the engine that applies them. Reading a YAML file is not
-- modelled: `load_policies` is given what the parser returns.
pub mod Fixes
pub mod Evaluation
use sherlock.Prelude.{
  ℕ, String, Bool, true, false, not, ◌&&◌, ◌||◌, List, [], ◌∷◌, ◌++◌, Option, none, some, ltb,
  str_eq, mem_str, map, if◌then◌else◌,
}
use sherlock.Contracts.{
  Hypothesis, SuggestedFix, cause_deploy, cause_capacity, cause_code, cause_infra,
}
use Fixes.{Seen, add_fix, add_fixes}

pub record PolicyMatch : Type 0 where
  pub cause_category : String
  pub confidence_min : ℕ

pub record PolicyAction : Type 0 where
  pub title : String
  pub description : String
  pub runbook_url : String
  pub safe_by_default : Bool

pub record Policy : Type 0 where
  pub name : String
  pub condition : PolicyMatch
  pub actions : List PolicyAction

-- The engine's state, less its logger.
abbrev pub Engine : Type 0
Engine = List Policy

abbrev pub new : Engine
new = []

-- The error of reading or parsing leaves the policies as they are.
unfoldable pub load_policies : Option (List Policy) → Engine → Engine × Bool
load_policies none policies = (policies, false)
load_policies (some loaded) policies = (policies ++ loaded, true)

abbrev action : String → String → Bool → PolicyAction
action title description safe = record {
  title = title;
  description = description;
  runbook_url = "";
  safe_by_default = safe;
}

abbrev policy : String → String → ℕ → List PolicyAction → Policy
policy name category minimum actions = record {
  name = name;
  condition = record { cause_category = category; confidence_min = minimum };
  actions = actions;
}

unfoldable pub default_policies : List Policy
default_policies =
    policy "deploy_regression" cause_deploy 60 (
      action "Rollback to previous version"
        "Revert to the last known-good deployment to restore service health." true
      ∷ action "Review deployment diff"
          "Examine the code changes introduced in the suspected deployment." false
      ∷ [])
    ∷ policy "oom_capacity" cause_capacity 50 (
        action "Increase memory/CPU limits"
          "Raise resource requests and limits for the affected workload." true
        ∷ action "Profile application for leaks"
            "Run profiling to identify memory or goroutine leaks." false
        ∷ [])
    ∷ policy "code_bug" cause_code 70 (
        action "Review error patterns"
          "Analyze recurring error signatures in logs to pinpoint the faulty code path." false
        ∷ action "Create bug fix PR" "Open a pull request addressing the identified bug." false
        ∷ [])
    ∷ policy "infrastructure" cause_infra 50 (
        action "Check node health"
          "Verify the health of underlying compute nodes (CPU, memory, disk, network)." true
        ∷ action "Review resource quotas"
            "Ensure namespace resource quotas and limit ranges are not blocking pods." false
        ∷ [])
    ∷ []

unfoldable pub load_defaults : Engine → Engine
unfolding default_policies
load_defaults policies = policies ++ default_policies

unfoldable pub policy_matches : Policy → Hypothesis → Bool
policy_matches p h =
    if not (str_eq p.condition.cause_category "")
      && not (str_eq h.cause_category p.condition.cause_category)
    then false
    else if ltb h.confidence p.condition.confidence_min
    then false
    else true

unfoldable pub fix_of : PolicyAction → SuggestedFix
fix_of a = record {
  title = a.title;
  description = a.description;
  runbook_url = a.runbook_url;
  action_ref = "";
  safe_by_default = a.safe_by_default;
}

-- The first loop, over the fixes of the hypotheses.
unfoldable pub hypothesis_loop : Seen → List Hypothesis → Seen
hypothesis_loop s [] = s
hypothesis_loop s (h ∷ hs) = hypothesis_loop (add_fixes s h.suggested_fixes) hs

unfoldable pub policy_loop : Hypothesis → Seen → List Policy → Seen
unfolding policy_matches fix_of
policy_loop h s [] = s
policy_loop h s (p ∷ ps) =
    policy_loop h (if policy_matches p h then add_fixes s (map fix_of p.actions) else s) ps

-- The second loop, over the hypotheses and the policies.
unfoldable pub policies_loop : Engine → Seen → List Hypothesis → Seen
unfolding policy_loop
policies_loop policies s [] = s
policies_loop policies s (h ∷ hs) = policies_loop policies (policy_loop h s policies) hs

unfoldable pub evaluate : Engine → List Hypothesis → List SuggestedFix
unfolding hypothesis_loop policies_loop
evaluate policies hypotheses =
    (policies_loop policies (hypothesis_loop ([], []) hypotheses) hypotheses).1
