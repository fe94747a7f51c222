-- ===== src/Tests/Graphs.antt =====
-- Correlations, timelines and suggested fixes.
use mathlib.Core.List.{Permᴰ}
use sherlock.Prelude.{
  ◌≤◌, ◌*◌, ◌+◌, ◌≡◌, String, [], ◌∷◌, ◌++◌, none, some, map, arith, All, length, IsSorted,
  if◌then◌else◌, ltb, pos, ◌<ℤ◌, ◌-◌,
}
use sherlock.Contracts.{Correlation, Evidence}
use sherlock.Correlation.{correlate, correlation, temporal_correlation, temporal_window}
use sherlock.Correlation.Gap.{separation, temporal_correlation_lem, temporal_correlation_unset}
use sherlock.Correlation.Pairs.{correlate-IsLink, IsLink}
use sherlock.Timeline.{build, unsorted_events, earlier}
use sherlock.Timeline.Order.{build_lem, unstamped, count_shown}
use sherlock.Remediation.{default_policies, evaluate}
use sherlock.Remediation.Fixes.{IsDistinct, find_title}
use sherlock.Remediation.Evaluation.{evaluate-find, own_fixes, policy_fixes}
use sherlock.Tests.{item, ten, sample, suspect, sort_events, new_id, evidence}

abbrev early : Evidence
early = item "x" "log" "" 0 ten

-- One minute later.
abbrev late : Evidence
late = item "y" "metric" "" 0 (ten + 60000000000)

-- Times that were never set, and some of this century.
abbrev unset : Evidence
unset = item "z" "log" "" 0 0

abbrev modern : Evidence
modern = item "m" "log" "" 0 63000000000000000000

temporal_correlation_lem_example : temporal_correlation early late ≡ (
    let g = separation ten ten (ten + 60000000000) (ten + 60000000000) in
    if ltb g 210000000000
    then some (correlation early late "temporal" (pos (temporal_window - g)))
    else none)
temporal_correlation_lem_example = temporal_correlation_lem early late (record {
  ordered_a = omega arith;
  ordered_b = omega arith;
  near_ab = omega arith;
  near_ba = omega arith;
})

temporal_correlation_unset_example :
    (c : Correlation) × (temporal_correlation unset modern ≡ some c)
    × (pos temporal_window <ℤ c.strength)
temporal_correlation_unset_example =
    temporal_correlation_unset unset modern (omega arith) (omega arith) (omega arith)

correlate-IsLink_example :
    All (IsLink evidence) (correlate sample).correlations
    × (length (correlate sample).correlations + length evidence ≤ length evidence * length evidence)
    × ((correlate sample).investigation_data ≡ sample)
correlate-IsLink_example = correlate-IsLink sample

build_lem_example :
    IsSorted earlier (build sort_events new_id sample)
    × All (λ ev. ev.investigation_id ≡ "i") (build sort_events new_id sample)
    × Permᴰ
        (map unstamped (unsorted_events sample))
        (map unstamped (build sort_events new_id sample))
    × (length (build sort_events new_id sample) ≡ 1 + count_shown evidence)
build_lem_example = build_lem sort_events new_id sample

evaluate-find_example :
    IsDistinct (evaluate default_policies (suspect ∷ []))
    × ((t : String)
        → find_title t (evaluate default_policies (suspect ∷ []))
          ≡ find_title t (own_fixes (suspect ∷ []) ++ policy_fixes default_policies (suspect ∷ [])))
evaluate-find_example = evaluate-find default_policies (suspect ∷ [])
