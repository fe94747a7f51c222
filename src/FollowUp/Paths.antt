-- ===== src/FollowUp/Paths.antt =====
-- Which files a follow-up fetches, and when it panics.
use text.Mathlib.Text.{starts_with}
use sherlock.Prelude.{
  ◌≡◌, ◌≢◌, refl, inl, inr, String, Bool, true, false, List, [], ◌∷◌, map, Option, none, some, All,
  All-append, All-filter_bool, All-imp, All_lem, filter_bool, trim_text, str_eq, str_eq_complete,
  codes, contains, Bool-cases, ap, ◌∙◌, to_upper,
}
use sherlock.Contracts.{CollectRequest, Evidence, Attributes, NormalizedAlert, TargetRef}
use sherlock.Analysis.{FollowUpQuery, DeepEvidence, eq_codes}
use sherlock.FollowUp.{
  is_log, is_pod_event, and_then, no_evidence, is_safe_path, safe_paths, parse_csv, trace_ids,
  Executor, GitProvider, FollowUpCall, collect, fetch, Progress, run_collect, labelled_collect,
  put_trace, put_query, trace_logs_loop, execute_time_window_logs, execute_pod_events, fetch_from,
  execute_with_git, execute_github_files, execute_log_query, execute_one, execute_loop, execute,
}

-- A path inside the repository: relative, with no way up.
pub record IsSafe (p : String) : Type 0 where
  pub named : p ≢ ""
  pub no_way_up : contains (codes p) (codes "..") ≡ false
  pub relative : starts_with p "/" ≡ false

abbrev pub SafeCall : FollowUpCall → Type 0
SafeCall (collect req) = Unit
SafeCall (fetch repo paths) = All IsSafe paths

is_safe_path-IsSafe : (p : String) → is_safe_path p ≡ true → IsSafe p
is_safe_path-IsSafe p h = elim (Bool-cases (str_eq p "")) [
  | inl blank ↦ absurd (cc (rw blank at h))
  | inr given ↦ elim (Bool-cases (contains (codes p) (codes ".."))) [
    | inl up ↦ absurd (cc (rw (given, up) at h))
    | inr level ↦ elim (Bool-cases (starts_with p "/")) [
      | inl rooted ↦ absurd (cc (rw (given, level, rooted) at h))
      | inr free ↦ record {
        named = λ e. cc (str_eq_complete p "" e);
        no_way_up = level;
        relative = free;
      }
    ]
  ]
]

safe_paths-IsSafe : (value : String) → All IsSafe (safe_paths value)
unfolding safe_paths
safe_paths-IsSafe value =
    All-imp (λ p. (is_safe_path p ≡ true) × Unit {0}) IsSafe
      (filter_bool is_safe_path (map trim_text (parse_csv value)))
      (λ p h. is_safe_path-IsSafe p h.0)
      (All-filter_bool (λ p. Unit {0}) is_safe_path (map trim_text (parse_csv value))
        (All_lem (λ p. Unit {0}) _ (λ p. tt)))

-- The alert has a label map, and only safe files were fetched.
pub record IsGood (s : Progress) : Type 0 where
  pub written : (m : Attributes) × (s.labels ≡ some m)
  pub safe : All SafeCall s.calls

abbrev pub Returns : Option Progress → Type 0
Returns o = (s : Progress) × (o ≡ some s) × IsGood s

module _ {E : Type 0} (x : Executor E) (alert : NormalizedAlert) (targets : List TargetRef) where
  labelled_collect-Returns :
      (k v : String) (put : String → DeepEvidence → DeepEvidence) (s : Progress)
      (labels : Option Attributes)
      → s.labels ≡ labels
      → IsGood s
      → Returns (labelled_collect x alert targets k v put s labels)
  labelled_collect-Returns k v put s none e g = absurd (cc (g.written.1, e))
  labelled_collect-Returns k v put s (some m) e g = (
    _,
    refl,
    record { written = (_, refl); safe = All-append SafeCall s.calls _ g.safe (tt, tt) },
  )

  run_collect-IsGood :
      (req : CollectRequest) (put : String → DeepEvidence → DeepEvidence) (p : Evidence → Bool)
      (s : Progress)
      → IsGood s
      → IsGood (run_collect x alert targets req put p s)
  run_collect-IsGood req put p s g = record {
    written = g.written;
    safe = All-append SafeCall s.calls _ g.safe (tt, tt);
  }

  trace_logs_loop-Returns :
      (ids : List String) (s : Progress)
      → IsGood s
      → Returns (trace_logs_loop x alert targets ids s)
  unfolding trace_logs_loop
  trace_logs_loop-Returns [] s g = (s, refl, g)
  trace_logs_loop-Returns (i ∷ ids) s g =
      let r =
        labelled_collect-Returns "trace_id" i (put_trace x alert targets i) s s.labels refl g in
      let rest = trace_logs_loop-Returns ids r.0 r.2 in
      (
        rest.0,
        ap (λ o. and_then x alert targets o (λ s'. trace_logs_loop x alert targets ids s')) r.1
            ∙ rest.1,
        rest.2,
      )

  fetch_from-IsGood :
      (git : GitProvider E) (value : String) (s : Progress) (repo : Option String)
      → IsGood s
      → IsGood (fetch_from x alert targets git (safe_paths value) s repo)
  fetch_from-IsGood git value s none g = g
  fetch_from-IsGood git value s (some repo) g = record {
    written = g.written;
    safe = All-append SafeCall s.calls _ g.safe (safe_paths-IsSafe value, tt);
  }

  execute_with_git-IsGood :
      (value : String) (s : Progress) (git : Option (GitProvider E))
      → IsGood s
      → IsGood (execute_with_git x alert targets value s git)
  execute_with_git-IsGood value s none g = g
  execute_with_git-IsGood value s (some git) g = fetch_from-IsGood git value s _ g

  execute_one-Returns :
      (q : FollowUpQuery) (s : Progress) → IsGood s → Returns (execute_one x alert targets q s)
  unfolding execute_one execute_time_window_logs execute_pod_events execute_github_files
      execute_log_query
  execute_one-Returns q s g =
      let tool = to_upper q.tool in
      elim (Bool-cases (eq_codes tool (codes "TRACE_LOGS"))) [
        | inl a ↦ rw a (trace_logs_loop-Returns (trace_ids q.value) s g)
        | inr a ↦ elim (Bool-cases (eq_codes tool (codes "TIME_WINDOW_LOGS"))) [
          | inl b ↦
              rw (a, b)
                (
                  _,
                  refl,
                  run_collect-IsGood _ (λ text deep. record deep { extra_logs = text }) is_log s g,
                )
          | inr b ↦ elim (Bool-cases (eq_codes tool (codes "POD_EVENTS"))) [
            | inl c ↦
                rw (a, b, c)
                  (
                    _,
                    refl,
                    run_collect-IsGood _ (λ text deep. record deep { extra_pod_events = text })
                        is_pod_event s g,
                  )
            | inr c ↦ elim (Bool-cases (eq_codes tool (codes "GITHUB_FILES"))) [
              | inl d ↦ rw (a, b, c, d) (_, refl, execute_with_git-IsGood q.value s x.git g)
              | inr d ↦ elim (Bool-cases (eq_codes tool (codes "LOG_QUERY"))) [
                | inl e ↦
                    rw (a, b, c, d, e)
                      (labelled_collect-Returns "custom_query" q.value (put_query x alert targets) s
                        s.labels refl g)
                | inr e ↦ rw (a, b, c, d, e) (s, refl, g)
              ]
            ]
          ]
        ]
      ]

  execute_loop-Returns :
      (qs : List FollowUpQuery) (s : Progress)
      → IsGood s
      → Returns (execute_loop x alert targets qs s)
  unfolding execute_loop
  execute_loop-Returns [] s g = (s, refl, g)
  execute_loop-Returns (q ∷ qs) s g =
      let r = execute_one-Returns q s g in
      let rest = execute_loop-Returns qs r.0 r.2 in
      (
        rest.0,
        ap (λ o. and_then x alert targets o (λ s'. execute_loop x alert targets qs s')) r.1
            ∙ rest.1,
        rest.2,
      )

  pub execute-Returns :
      (labels : Attributes) (qs : List FollowUpQuery)
      → Returns (execute x alert targets (some labels) qs)
  unfolding execute
  execute-Returns labels qs =
      execute_loop-Returns qs
        (record { labels = some labels; deep = no_evidence x alert targets; calls = [] })
        (record { written = (labels, refl); safe = tt })

  -- For an alert with a label map the follow-ups never panic, and every file that they fetch has a
  -- name, which is relative and has no way up in it.
  pub execute-IsSafe :
      (labels : Attributes) (qs : List FollowUpQuery)
      → (s : Progress) × (execute x alert targets (some labels) qs ≡ some s) × All SafeCall s.calls
  execute-IsSafe labels qs = let r = execute-Returns labels qs in (r.0, r.1, r.2.safe)
