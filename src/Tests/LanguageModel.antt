-- ===== src/Tests/LanguageModel.antt =====
-- The engine of the language model, with a model that answers at once and one that never does.
use sherlock.Prelude.{
  ℕ, to_upper, trim_text, subst, ◌≤◌, ◌≡◌, refl, String, true, false, [], ◌∷◌, none, some, arith,
  ok, err, to_lower, lower_code, is_empty, ◌↔◌,
}
use sherlock.Analysis.{LlmAnalysis, map_confidence, infer_cause_category, trim_space, contains_any}
use sherlock.Rca.LlmEngine.{
  deep_passes, is_deep_evidence_empty, LlmEngine, Ranked, rank, rank_with_llm,
}
use sherlock.Rca.LlmEngine.Analyses.{IsLast, deep_passes-IsLast}
use sherlock.Rca.LlmEngine.Passes.{IsOutcome, rank-IsOutcome, rank-calls}
use sherlock.Rca.LlmEngine.Panics.{rank-panic_iff}
use sherlock.Answer.{field_order, field_locs, parse_analysis, parse_fields}
use sherlock.Matches.{find_all}
use sherlock.Answer.Fields.{InOrder}
use sherlock.FollowUp.{Executor, execute, execute_pod_events, summaries}
use sherlock.Tests.{graph, unalerted, suspect, new_id, ten, alert, evidence}

abbrev reading : LlmAnalysis
reading = record {
  summary = "cart fails";
  root_cause = "The rollout broke it";
  severity = "high";
  exit_type = "";
  action_required = true;
  bug_fixable = false;
  confidence = "High ";
  recommendations = "Roll back" ∷ [];
  follow_ups = [];
  raw_response = "";
  pass_count = 0;
  deep_dive = false;
  ai_provider = "";
  ai_error = "";
}

trimmed_confidence : map_confidence " High " ≡ 85
unfolding map_confidence trim_space to_lower lower_code
trimmed_confidence = refl

rollout_category : infer_cause_category reading ≡ "deploy"
unfolding infer_cause_category contains_any to_lower lower_code
rollout_category = refl

abbrev nothing_found : Executor String
nothing_found = record { collect_all = λ req. ok []; git = none; parse_time = λ s. none; now = ten }

abbrev prompt_engine : LlmEngine String
prompt_engine = record {
  complete = λ n. ok "SUMMARY: cart fails\nFOLLOW_UP:\n- POD_EVENTS: now\n";
  follow_up = λ n. nothing_found;
  fallback = λ n. ok (suspect ∷ []);
  max_passes = 3;
  provider_name = "model";
  has_labels = true;
  print = λ n. "1";
  new_id = new_id;
}

abbrev silent_engine : LlmEngine String
silent_engine = record prompt_engine { complete = λ n. err "down" }

abbrev ranked_by_rules : Ranked String
ranked_by_rules = record { result = ok (suspect ∷ []); provider_calls = 1; fallback_calls = 1 }

falls_back : rank silent_engine graph ≡ some ranked_by_rules
unfolding rank rank_with_llm
falls_back = refl

rank-IsOutcome_example : IsOutcome silent_engine graph.investigation_data.evidence ranked_by_rules
rank-IsOutcome_example = rank-IsOutcome silent_engine graph falls_back

rank-calls_example : (1 ≤ 1) × (1 ≤ 3)
rank-calls_example = rank-calls silent_engine graph (omega arith) falls_back

prompt_InOrder :
    InOrder (field_locs field_order "SUMMARY: cart fails\nFOLLOW_UP:\n- POD_EVENTS: now\n")
unfolding field_locs
prompt_InOrder = ((omega arith, tt), (tt, tt))

prompt_orderly :
    (pass : ℕ) (content : String)
    → prompt_engine.complete pass ≡ ok content
    → InOrder (field_locs field_order content)
prompt_orderly pass content h =
    let same : "SUMMARY: cart fails\nFOLLOW_UP:\n- POD_EVENTS: now\n" ≡ content = cc in
    subst (λ c. InOrder (field_locs field_order c)) same prompt_InOrder

rank-panic_iff_example :
    (rank prompt_engine unalerted ≡ none) ↔ (is_empty unalerted.investigation_data.alerts ≡ true)
rank-panic_iff_example = rank-panic_iff prompt_engine prompt_orderly unalerted refl

-- A reading that asks for more, and an engine that finds more and then answers.
abbrev asking : LlmAnalysis
asking = record reading {
  follow_ups = record { tool = "POD_EVENTS"; value = "" } ∷ [];
  pass_count = 1;
}

abbrev digging_engine : LlmEngine String
digging_engine = record prompt_engine {
  complete = λ n. ok "SUMMARY: out of memory\n";
  follow_up = λ n. record nothing_found { collect_all = λ req. ok evidence };
}

abbrev dug : LlmAnalysis
dug = record reading {
  summary = "out of memory";
  root_cause = "";
  severity = "";
  action_required = false;
  confidence = "";
  recommendations = [];
  raw_response = "SUMMARY: out of memory\n";
  pass_count = 2;
  deep_dive = true;
  ai_provider = "model";
}

one_deep_pass : deep_passes digging_engine alert [] 2 2 (some []) asking ≡ some (dug, 1)
unfolding deep_passes execute parse_analysis is_deep_evidence_empty trim_space to_upper trim_text
    parse_fields find_all execute_pod_events summaries
one_deep_pass = refl

deep_passes-IsLast_example : IsLast digging_engine asking (dug, 1)
deep_passes-IsLast_example =
    deep_passes-IsLast digging_engine alert [] 2 2 (some []) asking refl one_deep_pass
