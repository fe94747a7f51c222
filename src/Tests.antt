-- ===== src/Tests.antt =====
-- Inputs for the tests, and an instance of each theorem that has hypotheses.
mod RootCause
mod Collections
mod FollowUps
mod Mentions
mod Senders
mod Settings
mod Slack
mod Webhooks
mod LanguageModel
mod Entities
mod Graphs
mod Services
mod Investigations
use sherlock.Prelude.{
  ℕ, ◌+◌, String, List, [], ◌∷◌, none, IsWeakOrder, SortSlice, sort_slice, arith,
}
use sherlock.Contracts.{
  TargetRef, Evidence, Hypothesis, NormalizedAlert, Investigation, InvestigationData,
  InvestigationGraph, TimelineEvent, InvestigationJob, pending, Time,
}
use sherlock.Rca.Engine.{more_confident}
use sherlock.Timeline.{earlier}

abbrev pub target : String → String → TargetRef
target namespace name = record {
  kind = "service";
  namespace = namespace;
  name = name;
  cluster = "";
  environment = "";
  repo = "";
  region = "";
}

abbrev pub item : String → String → String → ℕ → Time → Evidence
item id kind summary score at = record {
  id = id;
  investigation_id = "i";
  kind = kind;
  source = "test";
  target = target "shop" "cart";
  collected_at = at;
  observed_at_from = at;
  observed_at_to = at;
  summary = summary;
  body_ref = "";
  query = "";
  score = score;
  attributes = [];
  redaction_state = "none";
}

-- 10:00 on the day that the times are counted from here.
abbrev pub ten : Time
ten = 36000000000000

abbrev pub alert : NormalizedAlert
alert = record {
  id = "a1";
  source = "grafana";
  tenant_id = "t";
  status = "firing";
  severity = "critical";
  title = "cart is down";
  summary = "";
  fingerprint = "f1";
  group_key = "";
  starts_at = ten;
  ends_at = none;
  labels = [];
  annotations = [];
  entity_hints = [];
  links = [];
  raw_ref = "";
}

abbrev pub evidence : List Evidence
evidence =
    item "e1" "k8s_state" "pod in CrashLoopBackOff" 90 ten
    ∷ item "e2" "deploy" "release" 50 ten
    ∷ item "e3" "log" "panic" 80 (ten + 60000000000)
    ∷ item "e4" "metric" "cpu" 30 ten
    ∷ []

abbrev pub investigation : Investigation
investigation = record {
  id = "i";
  tenant_id = "t";
  status = pending;
  alert_ids = [];
  targets = [];
  time_from = 0;
  time_to = 0;
  headline = "";
  confidence = 0;
  created_at = ten;
  updated_at = ten;
  completed_at = none;
  slack_channel_id = "";
  slack_thread_ts = "";
  hypotheses = [];
  timeline = [];
}

abbrev pub sample : InvestigationData
sample = record { investigation = investigation; alerts = alert ∷ []; evidence = evidence }

abbrev pub graph : InvestigationGraph
graph = record { investigation_data = sample; correlations = [] }

-- The same with no alert.
abbrev pub unalerted : InvestigationGraph
unalerted = record {
  investigation_data = record { investigation = investigation; alerts = []; evidence = evidence };
  correlations = [];
}

abbrev pub suspect : Hypothesis
suspect = record {
  id = "";
  title = "crash";
  narrative = "";
  cause_category = "code";
  confidence = 70;
  supporting = "e1" ∷ "e2" ∷ [];
  contradicting = "e3" ∷ [];
  suggested_fixes = [];
}

abbrev pub job : InvestigationJob
job = record {
  alert = alert;
  slack_channel_id = "c";
  slack_thread_ts = "";
  requested_by = "";
  trace_parent = "";
  trace_state = "";
}

pub more_confident-IsWeakOrder : IsWeakOrder more_confident
more_confident-IsWeakOrder = record {
  asymm = λ x y h. ground arith;
  trans = λ x y z h k. ground arith;
}

pub earlier-IsWeakOrder : IsWeakOrder earlier
earlier-IsWeakOrder = record { asymm = λ x y h. ground arith; trans = λ x y z h k. ground arith }

-- Insertion sort for `sort.Slice`.
abbrev pub sort_hypotheses : SortSlice Hypothesis more_confident
sort_hypotheses = sort_slice more_confident more_confident-IsWeakOrder

abbrev pub sort_events : SortSlice TimelineEvent earlier
sort_events = sort_slice earlier earlier-IsWeakOrder

-- A UUID for each number.
abbrev pub new_id : ℕ → String
new_id n = "id"

abbrev pub format : Time → String
format t = "10:00"
