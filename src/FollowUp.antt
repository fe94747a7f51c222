-- ===== src/FollowUp.antt =====
-- internal/llm/followup.go. The collectors, the git provider and the parser of times are parameters.
-- A follow-up writes to the label map of the alert, which all its requests share: `labels` is that map,
-- `none` if it is nil, and a write to a nil map panics. The clock gives one time, `now`. The requests
-- and fetches are listed in order.
pub mod Csv
pub mod Paths
use Prim.Native.Char.{code}
use Prim.Native.String
use Prim.Native.String.{◌++◌ as str_append}
use text.Mathlib.Text.{starts_with}
use sherlock.Prelude.{
  ℕ, zero, ◌+◌, ◌-◌, ◌*◌, String, Bool, true, false, not, ◌&&◌, ◌||◌, List, [], ◌∷◌, ◌++◌, map,
  Option, none, some, ◌==◌, str_eq, if◌then◌else◌, filter_bool, is_empty, Result, ok, err, codes,
  contains, trim_text, split_text, to_upper,
}
use sherlock.Contracts.{
  Attributes, Evidence, NormalizedAlert, TargetRef, CollectRequest, Time, lookup, evidence_log,
  evidence_event, evidence_k8s_state,
}
use sherlock.Duration.{minute, hour}
use sherlock.Analysis.{FollowUpQuery, DeepEvidence, eq_codes}

-- `m[k] = v`
abbrev pub assign : String → String → Attributes → Attributes
assign k v [] = (k, v) ∷ []
assign k v ((j, w) ∷ m) = if str_eq k j then (k, v) ∷ m else (j, w) ∷ assign k v m

abbrev pub is_given : String → Bool
is_given s = not (str_eq s "")

unfoldable pub parse_csv : String → List String
unfolding trim_text split_text
parse_csv value = filter_bool is_given (map trim_text (split_text b',' value))

abbrev pub is_safe_path : String → Bool
is_safe_path p =
    not (str_eq p "") && not (contains (codes p) (codes "..")) && not (starts_with p "/")

-- The trace IDs of a request, which the loop over them trims again.
unfoldable pub trace_ids : String → List String
unfolding trim_text parse_csv
trace_ids value = filter_bool is_given (map trim_text (parse_csv value))

-- The paths of a request for files that are not rejected.
unfoldable pub safe_paths : String → List String
unfolding trim_text parse_csv
safe_paths value = filter_bool is_safe_path (map trim_text (parse_csv value))

abbrev pub label_or : String → Attributes → String → String
label_or k labels other = if str_eq (lookup k labels) "" then other else lookup k labels

unfoldable pub resolve_workload : String → Attributes → String
resolve_workload id labels = label_or "service" labels (
    label_or "app" labels
      (label_or "workload" labels (label_or "deployment" labels (str_append "unknown-" id))))

pub record GitProvider (E : Type 0) : Type 0 where
  pub resolve_repo : String → Option String
  pub fetch_files : String → List String → Result E Attributes

pub record Executor (E : Type 0) : Type 0 where
  pub collect_all : CollectRequest → Result E (List Evidence)
  pub git : Option (GitProvider E)
  pub parse_time : String → Option Time
  pub now : Time

pub data FollowUpCall : Type 0 where
  collect : CollectRequest → FollowUpCall
  fetch : (repo : String) (paths : List String) → FollowUpCall

pub record Progress : Type 0 where
  pub labels : Option Attributes
  pub deep : DeepEvidence
  pub calls : List FollowUpCall

abbrev pub or_empty : Option Attributes → Attributes
or_empty none = []
or_empty (some m) = m

-- The summaries of the items of some kinds, a line each.
unfoldable pub summaries : (Evidence → Bool) → List Evidence → String
summaries p [] = ""
summaries p (e ∷ es) =
    let rest = summaries p es in if p e then str_append e.summary (str_append "\n" rest) else rest

abbrev pub is_log : Evidence → Bool
is_log e = str_eq e.kind evidence_log

abbrev pub is_pod_event : Evidence → Bool
is_pod_event e = str_eq e.kind evidence_event || str_eq e.kind evidence_k8s_state

module _ {E : Type 0} (x : Executor E) (alert : NormalizedAlert) (targets : List TargetRef) where
  abbrev pub request : Option Attributes → Time → Time → CollectRequest
  request labels from to = record {
    investigation_id = "followup";
    alert = record alert { labels = or_empty labels };
    targets = targets;
    time_from = from;
    time_to = to;
  }

  -- What a collection adds to the deep evidence; an error adds nothing.
  abbrev pub collected :
      (String → DeepEvidence → DeepEvidence)
      → (Evidence → Bool)
      → Result E (List Evidence)
      → DeepEvidence
      → DeepEvidence
  collected put p (err e) deep = deep
  collected put p (ok evidence) deep = put (summaries p evidence) deep

  abbrev pub run_collect :
      CollectRequest
      → (String → DeepEvidence → DeepEvidence)
      → (Evidence → Bool)
      → Progress
      → Progress
  run_collect req put p s = record s {
    deep = collected put p (x.collect_all req) s.deep;
    calls = s.calls ++ collect req ∷ [];
  }

  -- A write to the alert's labels, and the collection that follows it.
  abbrev pub labelled_collect :
      String
      → String
      → (String → DeepEvidence → DeepEvidence)
      → Progress
      → Option Attributes
      → Option Progress
  labelled_collect k v put s none = none
  labelled_collect k v put s (some m) = some (
      run_collect (request (some (assign k v m)) (alert.starts_at - 30 * minute) x.now) put is_log
        (record s { labels = some (assign k v m) }))

  abbrev pub put_trace : String → String → DeepEvidence → DeepEvidence
  put_trace trace_id text deep =
      if str_eq text ""
      then deep
      else record deep { trace_logs = assign trace_id text deep.trace_logs }

  abbrev pub and_then : Option Progress → (Progress → Option Progress) → Option Progress
  and_then none f = none
  and_then (some s) f = f s

  unfoldable pub trace_logs_loop : List String → Progress → Option Progress
  trace_logs_loop [] s = some s
  trace_logs_loop (trace_id ∷ ids) s =
      and_then (labelled_collect "trace_id" trace_id (put_trace trace_id) s s.labels)
        (λ s'. trace_logs_loop ids s')

  abbrev pub window_from : Option Time → Option Time → Time × Time
  window_from none to = (x.now - 30 * minute, x.now)
  window_from (some from) none = (from, x.now)
  window_from (some from) (some to) = (from, to)

  -- `strings.SplitN(value, "/", 2)`, at the first slash.
  abbrev pub split_slash : String → String × Option String
  split_slash String.[] = (String.[], none)
  split_slash (String.◌∷◌ c s) =
      let (head, tail) = split_slash s in
      if code c == b'/' then (String.[], some s) else (String.◌∷◌ c head, tail)

  abbrev pub window_of : String × Option String → Time × Time
  window_of (head, none) = (x.now - 30 * minute, x.now)
  window_of (head, some tail) =
      window_from (x.parse_time (trim_text head)) (x.parse_time (trim_text tail))

  unfoldable pub parse_time_window : String → Time × Time
  unfolding trim_text
  parse_time_window value = window_of (split_slash value)

  unfoldable pub execute_time_window_logs : String → Progress → Progress
  execute_time_window_logs value s =
      let (from, to) = parse_time_window value in
      run_collect (request s.labels from to) (λ text deep. record deep { extra_logs = text }) is_log
        s

  unfoldable pub execute_pod_events : Progress → Progress
  execute_pod_events s =
      run_collect (request s.labels (x.now - hour) x.now)
        (λ text deep. record deep { extra_pod_events = text }) is_pod_event s

  abbrev pub put_files : Attributes → DeepEvidence → DeepEvidence
  put_files [] deep = deep
  put_files ((path, content) ∷ files) deep =
      put_files files
        (record deep { extra_source_files = assign path content deep.extra_source_files })

  abbrev pub fetched : Result E Attributes → DeepEvidence → DeepEvidence
  fetched (err e) deep = deep
  fetched (ok files) deep = put_files files deep

  abbrev pub fetch_from : GitProvider E → List String → Progress → Option String → Progress
  fetch_from git paths s none = s
  fetch_from git paths s (some repo) = record s {
    deep = fetched (git.fetch_files repo paths) s.deep;
    calls = s.calls ++ fetch repo paths ∷ [];
  }

  abbrev pub execute_with_git : String → Progress → Option (GitProvider E) → Progress
  execute_with_git value s none = s
  execute_with_git value s (some git) =
      fetch_from git (safe_paths value) s
        (git.resolve_repo (resolve_workload alert.id (or_empty s.labels)))

  unfoldable pub execute_github_files : String → Progress → Progress
  unfolding safe_paths resolve_workload
  execute_github_files value s = execute_with_git value s x.git

  abbrev pub put_query : String → DeepEvidence → DeepEvidence
  put_query text deep = if str_eq text "" then deep else record deep { custom_query_results = text }

  unfoldable pub execute_log_query : String → Progress → Option Progress
  execute_log_query value s = labelled_collect "custom_query" value put_query s s.labels

  -- The switch on the tool, in upper case; an unknown one is only logged.
  unfoldable pub execute_one : FollowUpQuery → Progress → Option Progress
  execute_one q s =
      let tool = to_upper q.tool in
      if eq_codes tool (codes "TRACE_LOGS")
      then trace_logs_loop (trace_ids q.value) s
      else if eq_codes tool (codes "TIME_WINDOW_LOGS")
      then some (execute_time_window_logs q.value s)
      else if eq_codes tool (codes "POD_EVENTS")
      then some (execute_pod_events s)
      else if eq_codes tool (codes "GITHUB_FILES")
      then some (execute_github_files q.value s)
      else if eq_codes tool (codes "LOG_QUERY")
      then execute_log_query q.value s
      else some s

  unfoldable pub execute_loop : List FollowUpQuery → Progress → Option Progress
  unfolding execute_one
  execute_loop [] s = some s
  execute_loop (q ∷ qs) s = and_then (execute_one q s) (λ s'. execute_loop qs s')

  abbrev pub no_evidence : DeepEvidence
  no_evidence = record {
    trace_logs = [];
    extra_logs = "";
    extra_pod_events = "";
    extra_source_files = [];
    custom_query_results = "";
    deployment_evidence = "";
  }

  unfoldable pub execute : Option Attributes → List FollowUpQuery → Option Progress
  unfolding execute_loop
  execute labels qs = execute_loop qs (record { labels = labels; deep = no_evidence; calls = [] })
