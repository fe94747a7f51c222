-- ===== src/Rca/Confidence.antt =====
-- internal/rca/confidence.go: ScoreConfidence, in hundredths. Both subtractions stand at the end,
-- after every addition, so the subtraction that stops at 0 is the source's, clamped at 0.
pub mod Bounds
use sherlock.Prelude.{
  ℕ, zero, suc, ◌+◌, ◌-◌, ◌*◌, min, String, Bool, true, false, ◌&&◌, List, [], ◌∷◌, map, ltb, leb,
  mem_str, length, if◌then◌else◌,
}
use sherlock.Contracts.{Evidence, Hypothesis}
use sherlock.Rca.Evidence.{lookup_evidence}

-- `len` of the map that has these keys.
unfoldable pub count_distinct : List String → ℕ
count_distinct [] = 0
count_distinct (k ∷ ks) = let rest = count_distinct ks in if mem_str k ks then rest else suc rest

abbrev pub max_confidence : ℕ
max_confidence = 95

-- The arithmetic, on the numbers of supporting and contradicting items, kinds and sources.
unfoldable pub score : ℕ → ℕ → ℕ → ℕ → ℕ → ℕ
score confidence supporting contradicting kinds sources =
    let boosted = confidence + min (supporting * 5) 15 in
    let by_kinds = if leb 3 kinds then boosted + 5 else boosted in
    let by_sources = if leb 2 sources then by_kinds + 5 else by_kinds in
    let contradicted = by_sources - contradicting * 10 in
    let single = if leb kinds 1 && ltb 0 supporting then contradicted - 5 else contradicted in
    min max_confidence single

unfoldable pub score_confidence : Hypothesis → List Evidence → ℕ
score_confidence h all_evidence =
    let supporting = lookup_evidence h.supporting all_evidence in
    let contradicting = lookup_evidence h.contradicting all_evidence in
    score h.confidence (length supporting) (length contradicting)
      (count_distinct (map (λ e. e.kind) supporting))
      (count_distinct (map (λ e. e.source) supporting))
