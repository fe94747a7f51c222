-- ===== src/Orchestrator.antt =====
-- internal/investigation/orchestrator.go: one run of an investigation. Spans and log lines are left
-- out; an error keeps its message and loses the words that `fmt.Errorf` puts before it.
pub mod Effects
pub mod View
pub mod Stages
pub mod Completion
pub mod Lifecycle
pub mod Replies
pub mod Pool
pub mod Answered
use Prim.Native.String.{◌++◌ as str_append, len}
use sherlock.Prelude.{
  ℕ, suc, ◌+◌, String, Bool, true, false, not, ◌&&◌, List, [], ◌∷◌, ◌++◌, map, Option, none, some,
  ltb, str_eq, length, is_empty, if◌then◌else◌,
}
use sherlock.Contracts.{
  NormalizedAlert, Evidence, CollectRequest, Hypothesis, SuggestedFix, TimelineEvent, Investigation,
  InvestigationData, InvestigationGraph, InvestigationResult, InvestigationJob, InvestigationStatus,
  pending, collecting, analyzing, publishing, done, failed,
}
use sherlock.Remediation.Fixes.{add_fixes, titles}
use Effects.{
  Effect, create_alert, create_investigation, audit_created, audit_completed, audit_failed,
  post_started, post_update, post_result, post_error, update_status, complete_investigation,
  collect, put_blob, begin_tx, commit, create_evidence, create_hypotheses, create_events, correlate,
  rank, count_started, count_active, count_inactive, count_completed, collecting_for,
  collected_items, Trace, Services, Failure, Outcome, returned, failed_with, panicked, M, pure,
  fail, panic, and_then, ◌>>=◌, ◌>>◌, invoke, attempt, require, check_error, when, with_rollback,
}

module _ (services : Services) where
  open services use {
    has_slack, has_tx, has_blob_store, has_remediation, llm_enabled, has_llm, thread_of, resolve,
    collected_by, graph_of, hypotheses_of, engine_name, evaluate, build, new_id, now,
  }

  -- `inv.SlackChannelID != "" && o.slack != nil`
  abbrev notifies : Investigation → Bool
  notifies inv = not (str_eq inv.slack_channel_id "") && has_slack

  unfoldable pub new_investigation : InvestigationJob → Investigation
  new_investigation job = record {
    id = new_id;
    tenant_id = job.alert.tenant_id;
    status = pending;
    alert_ids = job.alert.id ∷ [];
    targets = [];
    time_from = 0;
    time_to = 0;
    headline = "";
    confidence = 0;
    created_at = now;
    updated_at = now;
    completed_at = none;
    slack_channel_id = job.slack_channel_id;
    slack_thread_ts = "";
    hypotheses = [];
    timeline = [];
  }

  abbrev keep_thread : Investigation → Trace → Option String → Investigation
  keep_thread inv t none = record inv { slack_thread_ts = thread_of t }
  keep_thread inv t (some e) = inv

  unfoldable pub announce : Investigation → M Investigation
  announce inv t =
      let posted = post_started inv.slack_channel_id inv.id in
      let e = services.error_of t posted in
      if notifies inv then (returned (keep_thread inv t e), (posted, e) ∷ t) else (returned inv, t)

  -- From the stored alert to the message in Slack.
  unfoldable pub create_stage : InvestigationJob → M Investigation
  unfolding new_investigation announce
  create_stage job = do
    let inv = new_investigation job
    attempt services (create_alert job.alert)
    require services (create_investigation inv)
    attempt services (audit_created inv.tenant_id inv.id job.alert.id)
    announce inv

  abbrev pub collect_request : InvestigationJob → Investigation → CollectRequest
  collect_request job inv = record {
    investigation_id = inv.id;
    alert = job.alert;
    targets = inv.targets;
    time_from = inv.time_from;
    time_to = inv.time_to;
  }

  unfoldable pub collecting_stage : InvestigationJob → Investigation → M Investigation
  collecting_stage job inv = do
    require services (update_status inv.id collecting)
    let resolved = resolve job.alert
    let inv' : Investigation = record inv {
      targets = resolved.targets;
      time_from = resolved.time_from;
      time_to = resolved.time_to;
    }
    when services (notifies inv') (
        attempt services (
          post_update inv'.slack_channel_id inv'.slack_thread_ts
            (collecting_for (length resolved.targets))))
    pure inv'

  abbrev blob_key : Investigation → Evidence → String
  blob_key inv e = str_append "evidence/" (str_append inv.id (str_append "/" e.id))

  abbrev keep_key : Evidence → String → Option String → Evidence
  keep_key e key none = record e { body_ref = key }
  keep_key e key (some err) = e

  -- One item: a body of more than 4096 bytes goes to the blob store, if that takes it.
  unfoldable pub offload_item : Investigation → Evidence → M Evidence
  offload_item inv e t =
      let key = blob_key inv e in
      let stored = put_blob key e.body_ref in
      let error = services.error_of t stored in
      if ltb 4096 (len e.body_ref)
      then (returned (keep_key e key error), (stored, error) ∷ t)
      else (returned e, t)

  unfoldable pub offload : Investigation → List Evidence → M (List Evidence)
  unfolding offload_item
  offload inv [] = pure []
  offload inv (e ∷ es) = do e' ← offload_item inv e; es' ← offload inv es; pure (e' ∷ es')

  unfoldable pub store_evidence_batch : List Evidence → M (Unit {0})
  store_evidence_batch collected =
      if is_empty collected
      then pure tt
      else if has_tx
      then (do
        require services begin_tx
        with_rollback services
            (do require services (create_evidence collected); require services commit))
      else require services (create_evidence collected)

  unfoldable pub collect_stage : InvestigationJob → Investigation → M (List Evidence)
  unfolding offload store_evidence_batch
  collect_stage job inv = do
    attempt services (collect (collect_request job inv))
    let items = collected_by (collect_request job inv)
    collected ← (if has_blob_store then offload inv items else pure items)
    store_evidence_batch collected
    when services (notifies inv) (
        attempt services (
          post_update inv.slack_channel_id inv.slack_thread_ts
            (collected_items (length collected))))
    pure collected

  -- `selectRCAEngine`: whether the LLM engine is taken.
  abbrev pub select_rca_engine : Bool
  select_rca_engine = llm_enabled && has_llm

  unfoldable pub fail_investigation : Investigation → String → M (List Hypothesis)
  fail_investigation inv message = do
    attempt services (count_completed "failed")
    attempt services (update_status inv.id failed)
    when services (notifies inv)
        (attempt services (post_error inv.slack_channel_id inv.slack_thread_ts message))
    attempt services (audit_failed inv.tenant_id inv.id message)
    fail (record { counted = true; message = message })

  abbrev graph_or_plain : InvestigationData → Option String → InvestigationGraph
  graph_or_plain d none = graph_of d
  graph_or_plain d (some e) = record { investigation_data = d; correlations = [] }

  abbrev ranked : Investigation → Option (List Hypothesis) → Option String → M (List Hypothesis)
  ranked inv none e = panic
  ranked inv (some hs) none = pure hs
  ranked inv (some hs) (some e) = fail_investigation inv (str_append "RCA engine failed: " e)

  unfoldable pub analyze_stage : Investigation → InvestigationData → M (List Hypothesis)
  unfolding fail_investigation
  analyze_stage inv inv_data = do
    require services (update_status inv.id analyzing)
    correlation_error ← invoke services (correlate inv_data)
    let graph = graph_or_plain inv_data correlation_error
    rank_error ← invoke services (rank select_rca_engine graph)
    ranked inv (hypotheses_of select_rca_engine graph) rank_error

  abbrev pub merge_first : List SuggestedFix → List Hypothesis → List Hypothesis
  merge_first policy_fixes [] = []
  merge_first policy_fixes (h ∷ hs) =
      record h {
        suggested_fixes = (add_fixes (titles h.suggested_fixes, h.suggested_fixes) policy_fixes).1;
      }
      ∷ hs

  -- The policies' fixes are added to the first hypothesis.
  unfoldable pub remediate : List Hypothesis → List Hypothesis
  remediate hypotheses =
      if has_remediation && not (is_empty hypotheses)
      then merge_first (evaluate hypotheses) hypotheses
      else hypotheses

  abbrev pub headline_of : List Hypothesis → String
  headline_of [] = "No clear hypothesis identified"
  headline_of (h ∷ hs) = h.title

  abbrev pub confidence_of : List Hypothesis → ℕ
  confidence_of [] = 0
  confidence_of (h ∷ hs) = h.confidence

  -- The writes of `storeCompletionBatch` before the last one.
  abbrev store_results : String → List Hypothesis → List TimelineEvent → M (Unit {0})
  store_results id hypotheses events = do
    when services (not (is_empty hypotheses)) (require services (create_hypotheses id hypotheses))
    when services (not (is_empty events)) (require services (create_events events))
    require services (update_status id publishing)

  unfoldable pub store_completion_batch :
      String → String → ℕ → List Hypothesis → List TimelineEvent → M (Unit {0})
  store_completion_batch id headline confidence hypotheses events =
      if has_tx
      then (do
        require services begin_tx
        with_rollback services (do
          store_results id hypotheses events
          require services (complete_investigation id headline confidence)
          require services commit))
      else (do
        store_results id hypotheses events
        require services (complete_investigation id headline confidence))

  abbrev pub first_fixes : List Hypothesis → List SuggestedFix
  first_fixes [] = []
  first_fixes (h ∷ hs) = h.suggested_fixes

  abbrev pub first_narrative : List Hypothesis → String
  first_narrative [] = ""
  first_narrative (h ∷ hs) = h.narrative

  unfoldable pub result_of :
      Investigation → List Hypothesis → List TimelineEvent → InvestigationResult
  result_of inv hypotheses events = record {
    investigation_id = inv.id;
    status = done;
    headline = headline_of hypotheses;
    confidence = confidence_of hypotheses;
    top_hypotheses = hypotheses;
    timeline_event_ids = map (λ (e : TimelineEvent). e.id) events;
    recommended_actions = first_fixes hypotheses;
    rca_engine = engine_name select_rca_engine;
    ai_provider = "";
    ai_model = "";
    pass_count = 0;
    root_cause = first_narrative hypotheses;
    severity = "";
    bug_fixable = false;
  }

  unfoldable pub conclude_stage :
      Investigation → InvestigationData → List Evidence → List Hypothesis → M (Unit {0})
  unfolding store_completion_batch result_of
  conclude_stage inv inv_data collected hypotheses = do
    let events = build inv_data
    store_completion_batch inv.id (headline_of hypotheses) (confidence_of hypotheses) hypotheses
        events
    when services (notifies inv) (
        attempt services
          (post_result inv.slack_channel_id inv.slack_thread_ts (result_of inv hypotheses events)))
    attempt services (
        audit_completed inv.tenant_id inv.id (headline_of hypotheses) (confidence_of hypotheses)
          (length collected) (length hypotheses))

  abbrev pub data_of : InvestigationJob → Investigation → List Evidence → InvestigationData
  data_of job inv collected = record {
    investigation = inv;
    alerts = job.alert ∷ [];
    evidence = collected;
  }

  -- The body of `runInvestigation`, between its deferred functions.
  unfoldable pub investigate : InvestigationJob → M (Unit {0})
  unfolding create_stage collecting_stage collect_stage analyze_stage remediate conclude_stage
  investigate job = do
    inv ← create_stage job
    inv' ← collecting_stage job inv
    collected ← collect_stage job inv'
    hypotheses ← analyze_stage inv' (data_of job inv' collected)
    conclude_stage inv' (data_of job inv' collected) collected (remediate hypotheses)

  -- The deferred function that counts the run. It goes by the error that the run returns, and a
  -- panicking run returns none.
  abbrev pub count_outcome : Outcome (Unit {0}) → Trace → Trace
  count_outcome (returned u) t =
      (count_completed "done", services.error_of t (count_completed "done")) ∷ t
  count_outcome panicked t =
      (count_completed "done", services.error_of t (count_completed "done")) ∷ t
  count_outcome (failed_with e) t =
      if e.counted
      then t
      else (count_completed "failed", services.error_of t (count_completed "failed")) ∷ t

  abbrev close_run : Outcome (Unit {0}) × Trace → Outcome (Unit {0}) × Trace
  close_run (o, t) =
      let t' = count_outcome o t in (o, (count_inactive, services.error_of t' count_inactive) ∷ t')

  unfoldable pub run_investigation : InvestigationJob → M (Unit {0})
  run_investigation job t =
      close_run
        ((do attempt services count_started; attempt services count_active; investigate job) t)
