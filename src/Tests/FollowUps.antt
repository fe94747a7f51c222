-- ===== src/Tests/FollowUps.antt =====
-- Answers of the model, and what is fetched for them.
use sherlock.Prelude.{
  ◌≡◌, refl, String, List, [], ◌∷◌, none, some, ok, All, ◌↔◌, to_upper, trim_text,
}
use sherlock.Analysis.{FollowUpQuery, LlmAnalysis}
use sherlock.Answer.{field_order, field_locs, parse_analysis, parse_fields, parse_follow_ups}
use sherlock.Answer.Fields.{InOrder, parse_analysis-InOrder_iff}
use sherlock.FollowUp.{
  Executor, GitProvider, Progress, parse_csv, safe_paths, execute, execute_log_query,
}
use sherlock.FollowUp.Csv.{Spells, item, blank, done, parse_csv-joined}
use sherlock.FollowUp.Paths.{SafeCall, execute-IsSafe}
use sherlock.Tests.{alert, evidence}

abbrev pieces : List String
pieces = " t1" ∷ "" ∷ "t2 " ∷ "  " ∷ []

pieces-Spells : Spells pieces ("t1" ∷ "t2" ∷ [])
unfolding trim_text
pieces-Spells =
    item " t1" "t1" refl (λ e. cc e)
      (blank "" refl (item "t2 " "t2" refl (λ e. cc e) (blank "  " refl done)))

parse_csv-joined_example : parse_csv " t1,,t2 ,  " ≡ "t1" ∷ "t2" ∷ []
parse_csv-joined_example =
    parse_csv-joined pieces ("t1" ∷ "t2" ∷ []) (refl, (refl, (refl, (refl, tt)))) pieces-Spells

parse_csv_spaces : parse_csv " a,, b ," ≡ "a" ∷ "b" ∷ []
unfolding parse_csv
parse_csv_spaces = refl

safe_paths_mixed : safe_paths "main.go,../x,/etc/passwd,pkg/a.go" ≡ "main.go" ∷ "pkg/a.go" ∷ []
unfolding safe_paths
safe_paths_mixed = refl

abbrev git : GitProvider String
git = record {
  resolve_repo = λ workload. some "acme/cart";
  fetch_files = λ repo paths. ok (("main.go", "package main") ∷ []);
}

abbrev executor : Executor String
executor = record {
  collect_all = λ req. ok evidence;
  git = some git;
  parse_time = λ s. none;
  now = 40000000000000;
}

abbrev queries : List FollowUpQuery
queries =
    record { tool = "trace_logs"; value = "t1" }
    ∷ record { tool = "GITHUB_FILES"; value = "main.go, ../secret" }
    ∷ []

execute-IsSafe_example :
    (s : Progress) × (execute executor alert [] (some []) queries ≡ some s) × All SafeCall s.calls
execute-IsSafe_example = execute-IsSafe executor alert [] [] queries

-- A query of the logs panics where the alert has no label map.
execute-none :
    execute executor alert [] none (record { tool = "LOG_QUERY"; value = "panic" } ∷ []) ≡ none
unfolding execute to_upper execute_log_query
execute-none = refl

abbrev answer : String
answer =
    "SUMMARY: cart\n  is down\nSEVERITY: High\nBUG_FIXABLE: yes\nRECOMMENDATIONS:\n- restart\n- LOG_QUERY: x\nFOLLOW_UP:\n- TRACE_LOGS: t1,t2\n"

answer_fields :
    parse_fields answer
    ≡ some (
        ("SUMMARY", "cart\n  is down")
        ∷ ("SEVERITY", "High")
        ∷ ("BUG_FIXABLE", "yes")
        ∷ ("RECOMMENDATIONS", "- restart\n- LOG_QUERY: x")
        ∷ ("FOLLOW_UP", "- TRACE_LOGS: t1,t2")
        ∷ [])
unfolding parse_fields
answer_fields = refl

answer_follow_ups : parse_follow_ups answer ≡ record { tool = "TRACE_LOGS"; value = "t1,t2" } ∷ []
unfolding parse_follow_ups
answer_follow_ups = refl

abbrev swapped : String
swapped = "SEVERITY: high\nSUMMARY: cart is down\n"

-- Fields that come in another order make the parser panic.
swapped-none : parse_analysis swapped ≡ none
unfolding parse_analysis
swapped-none = refl

parse_analysis-InOrder_iff_example :
    ((a : LlmAnalysis) × (parse_analysis swapped ≡ some a))
    ↔ InOrder (field_locs field_order swapped)
parse_analysis-InOrder_iff_example = parse_analysis-InOrder_iff swapped
