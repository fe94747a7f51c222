-- ===== src/Analysis.antt =====
-- internal/llm/parser.go, from an analysis on: the mapping of what the language model said to a
-- hypothesis. A float's 0.85 is 85. The printing of a number is a parameter.
pub mod Mapping
use Prim.Native.String.{◌++◌ as str_append}
use sherlock.Prelude.{
  ℕ, suc, ◌+◌, String, Bool, true, false, ◌||◌, ◌&&◌, List, [], ◌∷◌, map, any, leb, ◌==◌,
  if◌then◌else◌, codes, to_lower, lower_code, contains,
}
use sherlock.Contracts.{
  Evidence, Hypothesis, SuggestedFix, cause_deploy, cause_capacity, cause_dependency, cause_config,
  cause_code, cause_infra, cause_noise,
}

pub record DeepEvidence : Type 0 where
  pub trace_logs : List (String × String)
  pub extra_logs : String
  pub extra_pod_events : String
  pub extra_source_files : List (String × String)
  pub custom_query_results : String
  pub deployment_evidence : String

pub record FollowUpQuery : Type 0 where
  pub tool : String
  pub value : String

pub record LlmAnalysis : Type 0 where
  pub summary : String
  pub root_cause : String
  pub severity : String
  pub exit_type : String
  pub action_required : Bool
  pub bug_fixable : Bool
  pub confidence : String
  pub recommendations : List String
  pub follow_ups : List FollowUpQuery
  pub raw_response : String
  pub pass_count : ℕ
  pub deep_dive : Bool
  pub ai_provider : String
  pub ai_error : String

-- `unicode.IsSpace`.
abbrev pub is_space : ℕ → Bool
is_space c =
    (leb 9 c && leb c 13)
    || (c == 32)
    || (c == 133)
    || (c == 160)
    || (c == 5760)
    || (leb 8192 c && leb c 8202)
    || (c == 8232)
    || (c == 8233)
    || (c == 8239)
    || (c == 8287)
    || (c == 12288)

abbrev pub trim_left : List ℕ → List ℕ
trim_left [] = []
trim_left (c ∷ s) = let rest = trim_left s in if is_space c then rest else c ∷ s

abbrev pub reverse_onto : List ℕ → List ℕ → List ℕ
reverse_onto acc [] = acc
reverse_onto acc (c ∷ s) = reverse_onto (c ∷ acc) s

-- `strings.TrimSpace`.
unfoldable pub trim_space : List ℕ → List ℕ
trim_space s = trim_left (reverse_onto [] (trim_left (reverse_onto [] s)))

abbrev pub eq_codes : List ℕ → List ℕ → Bool
eq_codes [] [] = true
eq_codes [] (d ∷ t) = false
eq_codes (c ∷ s) [] = false
eq_codes (c ∷ s) (d ∷ t) = let rest = eq_codes s t in if c == d then rest else false

unfoldable pub map_confidence : String → ℕ
unfolding trim_space to_lower
map_confidence level =
    let text = trim_space (to_lower level) in
    if eq_codes text (codes "high")
    then 85
    else if eq_codes text (codes "medium")
    then 65
    else if eq_codes text (codes "low")
    then 40
    else 50

unfoldable pub contains_any : List ℕ → List String → Bool
contains_any text terms = any (λ t. contains text (codes t)) terms

abbrev pub deploy_terms : List String
deploy_terms = "deploy" ∷ "rollout" ∷ "release" ∷ "rollback" ∷ "version" ∷ []

abbrev pub capacity_terms : List String
capacity_terms = "memory" ∷ "oom" ∷ "heap" ∷ "out of memory" ∷ "resource limit" ∷ "evict" ∷ []

abbrev pub infra_terms : List String
infra_terms = "infra" ∷ "node" ∷ "scheduling" ∷ "disk" ∷ "network partition" ∷ "hardware" ∷ []

abbrev pub config_terms : List String
config_terms = "config" ∷ "environment variable" ∷ "misconfigur" ∷ "secret" ∷ "flag" ∷ []

abbrev pub dependency_terms : List String
dependency_terms =
    "dependency" ∷ "upstream" ∷ "downstream" ∷ "timeout" ∷ "connection refused" ∷ "dns" ∷ []

abbrev pub noise_terms : List String
noise_terms = "noise" ∷ "flap" ∷ "transient" ∷ "false positive" ∷ "auto-resolved" ∷ []

-- The last two branches of the source's switch both give `cause_code`.
unfoldable pub infer_cause_category : LlmAnalysis → String
unfolding to_lower contains_any
infer_cause_category a =
    let text = to_lower (
      str_append a.root_cause
        (str_append " " (str_append a.summary (str_append " " a.exit_type)))) in
    if contains_any text deploy_terms
    then cause_deploy
    else if contains_any text capacity_terms
    then cause_capacity
    else if contains_any text infra_terms
    then cause_infra
    else if contains_any text config_terms
    then cause_config
    else if contains_any text dependency_terms
    then cause_dependency
    else if contains_any text noise_terms
    then cause_noise
    else cause_code

module _ (print : ℕ → String) where
  -- The loop over the recommendations, from number `i` on.
  unfoldable pub steps_from : ℕ → List String → List SuggestedFix
  steps_from i [] = []
  steps_from i (r ∷ rs) =
      record {
        title = str_append "Step " (print i);
        description = r;
        runbook_url = "";
        action_ref = "";
        safe_by_default = false;
      }
      ∷ steps_from (suc i) rs

  unfoldable pub map_to_hypotheses : LlmAnalysis → List Evidence → List Hypothesis
  unfolding steps_from infer_cause_category map_confidence
  map_to_hypotheses a evidence =
      record {
        id = "";
        title = a.summary;
        narrative = a.root_cause;
        cause_category = infer_cause_category a;
        confidence = map_confidence a.confidence;
        supporting = map (λ e. e.id) evidence;
        contradicting = [];
        suggested_fixes = steps_from 1 a.recommendations;
      }
      ∷ []
