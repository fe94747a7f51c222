-- ===== src/Correlation.antt =====
-- internal/correlation/engine.go. A strength is counted in nanoseconds of `temporal_window`: what the
-- source writes as 1.0 is the whole window, 0.8 eight tenths of it.
pub mod Gap
pub mod Pairs
use sherlock.Prelude.{
  ℕ, ◌+◌, ◌*◌, String, Bool, true, false, not, ◌&&◌, ◌||◌, List, [], ◌∷◌, ◌++◌, Option, none, some,
  ltb, str_eq, if◌then◌else◌, ℤ, pos, ◌-ℤ◌, ltb_ℤ,
}
use sherlock.Contracts.{Evidence, Correlation, InvestigationData, InvestigationGraph, TargetRef}
use sherlock.Duration.{Duration, sub, flip_negative}

-- 5 * time.Minute
abbrev pub temporal_window : ℕ
temporal_window = 300000000000

-- 0.3
abbrev pub min_correlation_str : ℤ
min_correlation_str = pos 90000000000

-- 0.8
abbrev pub label_strength : ℤ
label_strength = pos 240000000000

-- 0.5
abbrev pub topology_strength : ℤ
topology_strength = pos 150000000000

abbrev pub correlation : Evidence → Evidence → String → ℤ → Correlation
correlation a b type strength = record {
  evidence_a = a.id;
  evidence_b = b.id;
  type = type;
  strength = strength;
}

unfoldable pub observation_gap : Evidence → Evidence → Duration
observation_gap a b =
    let gap_ab = flip_negative (sub b.observed_at_from a.observed_at_to) in
    let gap_ba = flip_negative (sub a.observed_at_from b.observed_at_to) in
    if not (ltb a.observed_at_to b.observed_at_from)
      && not (ltb b.observed_at_to a.observed_at_from)
    then pos 0
    else if ltb_ℤ gap_ab gap_ba
    then gap_ab
    else gap_ba

-- `1.0 - gap / window`, at least 0.
unfoldable pub temporal_strength : Duration → ℤ
temporal_strength gap =
    let strength = pos temporal_window -ℤ gap in if ltb_ℤ strength (pos 0) then pos 0 else strength

-- At a gap of exactly 210 seconds the source's float `1.0 - 210/300` is 0.30000000000000004, which is
-- above the constant: the test `strength <= 0.3` is one of below three tenths.
unfoldable pub temporal_correlation : Evidence → Evidence → Option Correlation
temporal_correlation a b =
    let gap = observation_gap a b in
    let strength = temporal_strength gap in
    if ltb_ℤ (pos temporal_window) gap
    then none
    else if ltb_ℤ strength min_correlation_str
    then none
    else some (correlation a b "temporal" strength)

unfoldable pub label_correlation : Evidence → Evidence → Option Correlation
label_correlation a b =
    if str_eq a.target.name "" || str_eq b.target.name ""
    then none
    else if str_eq a.target.namespace b.target.namespace && str_eq a.target.name b.target.name
    then some (correlation a b "label" label_strength)
    else none

unfoldable pub topology_correlation : Evidence → Evidence → Option Correlation
topology_correlation a b =
    let same_cluster =
      not (str_eq a.target.cluster "") && str_eq a.target.cluster b.target.cluster in
    let same_namespace = str_eq a.target.namespace b.target.namespace in
    if str_eq a.target.namespace "" || str_eq b.target.namespace ""
    then none
    else if str_eq a.target.namespace b.target.namespace && str_eq a.target.name b.target.name
    then none
    else if same_cluster || same_namespace
    then some (correlation a b "topology" topology_strength)
    else none

abbrev pub append_some : List Correlation → Option Correlation → List Correlation
append_some cs none = cs
append_some cs (some c) = cs ++ c ∷ []

-- The body of the inner loop.
unfoldable pub correlate_pair : Evidence → Evidence → List Correlation → List Correlation
correlate_pair a b cs =
    append_some (append_some (append_some cs (temporal_correlation a b)) (label_correlation a b))
      (topology_correlation a b)

unfoldable pub inner_loop : Evidence → List Evidence → List Correlation → List Correlation
inner_loop a [] cs = cs
inner_loop a (b ∷ bs) cs = inner_loop a bs (correlate_pair a b cs)

unfoldable pub outer_loop : List Evidence → List Correlation → List Correlation
unfolding inner_loop
outer_loop [] cs = cs
outer_loop (a ∷ rest) cs = outer_loop rest (inner_loop a rest cs)

-- `Correlate`, whose error is always nil.
unfoldable pub correlate : InvestigationData → InvestigationGraph
unfolding outer_loop
correlate d = record { investigation_data = d; correlations = outer_loop d.evidence [] }
