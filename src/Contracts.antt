-- ===== src/Contracts.antt =====
-- internal/contracts: the records that the components exchange.
-- The kinds and categories are Go string types, and stay strings. A time is a number of nanoseconds
-- since the zero `time.Time`. Scores and confidences, which the program writes with two decimals,
-- are numbers of hundredths. A map with string keys is an association list.
use sherlock.Prelude.{ℕ, String, Bool, List, Option, ◌∷◌, [], str_eq, if◌then◌else◌, ℤ}

abbrev pub Time : Type 0
Time = ℕ

abbrev pub Attributes : Type 0
Attributes = List (String × String)

-- `m[k]`, which is the empty string for a missing key.
abbrev pub lookup : String → Attributes → String
lookup k [] = ""
lookup k ((j, v) ∷ m) = let rest = lookup k m in if str_eq k j then v else rest

-- evidence.go
abbrev pub evidence_log : String
evidence_log = "log"

abbrev pub evidence_metric : String
evidence_metric = "metric"

abbrev pub evidence_event : String
evidence_event = "event"

abbrev pub evidence_deploy : String
evidence_deploy = "deploy"

abbrev pub evidence_git_change : String
evidence_git_change = "git_change"

abbrev pub evidence_k8s_state : String
evidence_k8s_state = "k8s_state"

-- hypothesis.go
abbrev pub cause_deploy : String
cause_deploy = "deploy"

abbrev pub cause_capacity : String
cause_capacity = "capacity"

abbrev pub cause_dependency : String
cause_dependency = "dependency"

abbrev pub cause_config : String
cause_config = "config"

abbrev pub cause_code : String
cause_code = "code"

abbrev pub cause_infra : String
cause_infra = "infra"

abbrev pub cause_noise : String
cause_noise = "noise"

-- alert.go
pub record TargetRef : Type 0 where
  pub kind : String
  pub namespace : String
  pub name : String
  pub cluster : String
  pub environment : String
  pub repo : String
  pub region : String

pub record NormalizedAlert : Type 0 where
  pub id : String
  pub source : String
  pub tenant_id : String
  pub status : String
  pub severity : String
  pub title : String
  pub summary : String
  pub fingerprint : String
  pub group_key : String
  pub starts_at : Time
  pub ends_at : Option Time
  pub labels : Attributes
  pub annotations : Attributes
  pub entity_hints : List TargetRef
  pub links : List (String × String)
  pub raw_ref : String

pub record Evidence : Type 0 where
  pub id : String
  pub investigation_id : String
  pub kind : String
  pub source : String
  pub target : TargetRef
  pub collected_at : Time
  pub observed_at_from : Time
  pub observed_at_to : Time
  pub summary : String
  pub body_ref : String
  pub query : String
  pub score : ℕ
  pub attributes : Attributes
  pub redaction_state : String

pub record CollectRequest : Type 0 where
  pub investigation_id : String
  pub alert : NormalizedAlert
  pub targets : List TargetRef
  pub time_from : Time
  pub time_to : Time

pub record SuggestedFix : Type 0 where
  pub title : String
  pub description : String
  pub runbook_url : String
  pub action_ref : String
  pub safe_by_default : Bool

pub record Hypothesis : Type 0 where
  pub id : String
  pub title : String
  pub narrative : String
  pub cause_category : String
  pub confidence : ℕ
  pub supporting : List String
  pub contradicting : List String
  pub suggested_fixes : List SuggestedFix

-- timeline.go
abbrev pub timeline_alert : String
timeline_alert = "alert"

abbrev pub timeline_deploy : String
timeline_deploy = "deploy"

abbrev pub timeline_k8s_event : String
timeline_k8s_event = "k8s_event"

abbrev pub timeline_metric_shift : String
timeline_metric_shift = "metric_shift"

abbrev pub timeline_log_pattern : String
timeline_log_pattern = "log_pattern"

pub record TimelineEvent : Type 0 where
  pub id : String
  pub investigation_id : String
  pub timestamp : Time
  pub kind : String
  pub source : String
  pub narrative : String
  pub evidence_ids : List String
  pub attributes : Attributes

-- investigation.go
pub data InvestigationStatus : Type 0 where
  pending collecting analyzing publishing done failed : InvestigationStatus

pub record Investigation : Type 0 where
  pub id : String
  pub tenant_id : String
  pub status : InvestigationStatus
  pub alert_ids : List String
  pub targets : List TargetRef
  pub time_from : Time
  pub time_to : Time
  pub headline : String
  pub confidence : ℕ
  pub created_at : Time
  pub updated_at : Time
  pub completed_at : Option Time
  pub slack_channel_id : String
  pub slack_thread_ts : String
  pub hypotheses : List Hypothesis
  pub timeline : List TimelineEvent

pub record InvestigationResult : Type 0 where
  pub investigation_id : String
  pub status : InvestigationStatus
  pub headline : String
  pub confidence : ℕ
  pub top_hypotheses : List Hypothesis
  pub timeline_event_ids : List String
  pub recommended_actions : List SuggestedFix
  pub rca_engine : String
  pub ai_provider : String
  pub ai_model : String
  pub pass_count : ℕ
  pub root_cause : String
  pub severity : String
  pub bug_fixable : Bool

pub record InvestigationData : Type 0 where
  pub investigation : Investigation
  pub alerts : List NormalizedAlert
  pub evidence : List Evidence

-- The strength is a fraction of `correlation.temporalWindow`, in nanoseconds.
pub record Correlation : Type 0 where
  pub evidence_a : String
  pub evidence_b : String
  pub type : String
  pub strength : ℤ

pub record InvestigationGraph : Type 0 where
  pub investigation_data : InvestigationData
  pub correlations : List Correlation

pub record InvestigationJob : Type 0 where
  pub alert : NormalizedAlert
  pub slack_channel_id : String
  pub slack_thread_ts : String
  pub requested_by : String
  pub trace_parent : String
  pub trace_state : String

pub record DedupResult : Type 0 where
  pub is_duplicate : Bool
  pub existing_id : String
  pub existing_headline : String
  pub existing_channel : String
  pub existing_thread : String

pub record ActiveInvestigation : Type 0 where
  pub id : String
  pub status : String
  pub headline : String
  pub confidence : ℕ
  pub slack_channel_id : String
  pub slack_thread_ts : String
  pub created_at : Time
  pub completed_at : Option Time
