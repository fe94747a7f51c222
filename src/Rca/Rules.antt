-- ===== src/Rca/Rules.antt =====
-- internal/rca/rules.go: the five rules that read the evidence alone.
pub mod Backed
use Prim.Native.String.{◌++◌ as str_append}
use sherlock.Prelude.{
  ℕ, ◌+◌, String, Bool, true, false, not, ◌&&◌, ◌||◌, List, [], ◌∷◌, ◌++◌, ltb, filter_bool,
  is_empty, length, if◌then◌else◌,
}
use sherlock.Contracts.{
  Evidence, Hypothesis, SuggestedFix, evidence_log, evidence_metric, evidence_event,
  evidence_deploy, evidence_k8s_state, cause_deploy, cause_capacity, cause_code, cause_infra,
}
use sherlock.Rca.Evidence.{find_evidence_by_kind, evidence_contains, evidence_ids}

-- A `contracts.SuggestedFix` literal, the fields that it leaves out empty.
abbrev pub fix : String → String → Bool → SuggestedFix
fix title description safe = record {
  title = title;
  description = description;
  runbook_url = "";
  action_ref = "";
  safe_by_default = safe;
}

-- A `contracts.Hypothesis` literal. The ID is given by the engine.
abbrev pub hypothesis : String → String → String → ℕ → List String → List SuggestedFix → Hypothesis
hypothesis title narrative category confidence supporting fixes = record {
  id = "";
  title = title;
  narrative = narrative;
  cause_category = category;
  confidence = confidence;
  supporting = supporting;
  contradicting = [];
  suggested_fixes = fixes;
}

abbrev pub is_high : Evidence → Bool
is_high e = ltb 50 e.score

unfoldable pub is_crash : Evidence → Bool
is_crash e = evidence_contains e "CrashLoopBackOff" || evidence_contains e "restart"

unfoldable pub crash_loop_rule : List Evidence → List Hypothesis
unfolding is_crash
crash_loop_rule evidence =
    let crash_evidence = filter_bool is_crash (find_evidence_by_kind evidence evidence_k8s_state) in
    let deploys = find_evidence_by_kind evidence evidence_deploy in
    let by_deploy = not (is_empty deploys) in
    if is_empty crash_evidence
    then []
    else hypothesis "Container crash loop detected"
        (if by_deploy
          then "Container crash loop detected following a recent deployment, likely a deploy regression."
          else "Container is in CrashLoopBackOff state, indicating repeated crashes on startup.")
        (if by_deploy then cause_deploy else cause_code) (if by_deploy then 75 + 10 else 75)
        (evidence_ids crash_evidence ++ evidence_ids deploys)
        (fix "Check recent deployments and consider rollback"
            "Review the last deployment diff and rollback if the crash correlates with the release."
            true
          ∷ [])
      ∷ []

unfoldable pub is_oom : Evidence → Bool
is_oom e = evidence_contains e "OOMKilled"

unfoldable pub is_memory_metric : Evidence → Bool
is_memory_metric m = evidence_contains m "memory" && is_high m

unfoldable pub oom_killed_rule : List Evidence → List Hypothesis
unfolding is_oom is_memory_metric
oom_killed_rule evidence =
    let oom_evidence = filter_bool is_oom (find_evidence_by_kind evidence evidence_k8s_state) in
    let mem_metrics =
      filter_bool is_memory_metric (find_evidence_by_kind evidence evidence_metric) in
    let confirmed = not (is_empty mem_metrics) in
    let narrative : String =
      "Container was killed by the OOM killer due to exceeding memory limits." in
    if is_empty oom_evidence
    then []
    else hypothesis "Out of memory - container killed by OOM"
        (if confirmed
          then str_append narrative " Memory metrics confirm an upward trend prior to the kill."
          else narrative)
        cause_capacity (if confirmed then 80 + 10 else 80)
        (evidence_ids oom_evidence ++ evidence_ids mem_metrics)
        (fix "Increase memory limits or investigate memory leak"
            "Raise container memory limits or profile the application for memory leaks." false
          ∷ [])
      ∷ []

unfoldable pub is_cpu_metric : Evidence → Bool
is_cpu_metric m = evidence_contains m "cpu" && is_high m

unfoldable pub is_traffic_metric : Evidence → Bool
is_traffic_metric m =
    evidence_contains m "traffic" || evidence_contains m "request" || evidence_contains m "qps"

unfoldable pub high_cpu_rule : List Evidence → List Hypothesis
unfolding is_cpu_metric is_traffic_metric
high_cpu_rule evidence =
    let metrics = find_evidence_by_kind evidence evidence_metric in
    let cpu_evidence = filter_bool is_cpu_metric metrics in
    let deploys = find_evidence_by_kind evidence evidence_deploy in
    let traffic_metrics = filter_bool is_traffic_metric metrics in
    if is_empty cpu_evidence
    then []
    else if not (is_empty deploys)
    then hypothesis "CPU spike after deployment"
        "CPU utilization spiked following a recent deployment, suggesting a performance regression in the new release."
        cause_deploy 70 (evidence_ids cpu_evidence ++ evidence_ids deploys)
        (fix "Review recent deploy changes"
            "Inspect the deployment diff for CPU-intensive code paths or misconfigurations." true
          ∷ [])
      ∷ []
    else if not (is_empty traffic_metrics)
    then hypothesis "CPU spike due to increased traffic"
        "CPU utilization increased alongside a rise in traffic metrics, indicating load-driven saturation."
        cause_capacity 65 (evidence_ids cpu_evidence ++ evidence_ids traffic_metrics)
        (fix "Consider scaling up"
            "Add replicas or increase CPU limits to handle the traffic surge." true
          ∷ [])
      ∷ []
    else hypothesis "High CPU utilization detected"
        "CPU metrics show anomalous utilization without a clear trigger." cause_capacity 55
        (evidence_ids cpu_evidence)
        (fix "Consider scaling up" "Review workload and consider horizontal or vertical scaling."
            true
          ∷ [])
      ∷ []

unfoldable pub error_spike_rule : List Evidence → List Hypothesis
error_spike_rule evidence =
    let error_logs = filter_bool is_high (find_evidence_by_kind evidence evidence_log) in
    let deploys = find_evidence_by_kind evidence evidence_deploy in
    let by_deploy = not (is_empty deploys) in
    if ltb (length error_logs) 3
    then []
    else hypothesis "Error rate increase detected"
        (if by_deploy
          then "Error rate increase correlates with a recent deployment."
          else "Multiple error log patterns detected, indicating an elevated error rate.")
        (if by_deploy then cause_deploy else cause_code) (if by_deploy then 70 else 60)
        (evidence_ids error_logs ++ evidence_ids deploys)
        (fix "Check error logs for root cause pattern"
            "Aggregate error logs to identify the dominant failure mode." true
          ∷ [])
      ∷ []

unfoldable pub is_scheduling : Evidence → Bool
is_scheduling e =
    evidence_contains e "FailedScheduling"
    || evidence_contains e "Evicted"
    || evidence_contains e "NodeNotReady"

unfoldable pub scheduling_failure_rule : List Evidence → List Hypothesis
unfolding is_scheduling
scheduling_failure_rule evidence =
    let events = find_evidence_by_kind evidence evidence_event in
    let k8s = find_evidence_by_kind evidence evidence_k8s_state in
    let sched_evidence = filter_bool is_scheduling (events ++ k8s) in
    if is_empty sched_evidence
    then []
    else hypothesis "Kubernetes scheduling or node issues"
        "Scheduling failures or node issues detected, pods may be unable to run." cause_infra 70
        (evidence_ids sched_evidence)
        (fix "Check node capacity and resource requests"
            "Verify cluster node health, available resources, and pod resource requests." true
          ∷ [])
      ∷ []
