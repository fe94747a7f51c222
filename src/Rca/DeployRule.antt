-- ===== src/Rca/DeployRule.antt =====
-- internal/rca/deploy_rule.go: DeployProximityRule. `none` is a panic: the rule reads the first alert
-- before it looks at how many there are.
pub mod Backed
pub mod Window
use Prim.Native.String.{◌++◌ as str_append, slice, len}
use sherlock.Prelude.{
  ℕ, zero, suc, ◌+◌, ◌-◌, ◌*◌, min, String, Bool, true, false, ◌&&◌, ◌||◌, List, [], ◌∷◌, ◌++◌,
  Option, none, some, ltb, leb, ◌==◌, is_empty, codes, str_eq, if◌then◌else◌, ltb_ℤ, leb_ℤ, ℤ, pos,
  negsuc,
}
use sherlock.Contracts.{
  Evidence, Hypothesis, NormalizedAlert, InvestigationGraph, Time, lookup, evidence_log,
  evidence_metric, evidence_deploy, evidence_git_change, cause_deploy,
}
use sherlock.Duration.{Duration, minute, hour, max_ns, sub, flip_negative}
use sherlock.Rca.Evidence.{find_evidence_by_kind, evidence_contains, evidence_ids}
use sherlock.Rca.Rules.{fix, hypothesis, is_high}

unfoldable pub proximity_confidence : Time → Time → ℕ
proximity_confidence deploy_time alert_time =
    let diff = flip_negative (sub alert_time deploy_time) in
    if leb_ℤ diff (pos (30 * minute))
    then 80
    else if leb_ℤ diff (pos hour)
    then 70
    else if leb_ℤ diff (pos (2 * hour))
    then 50
    else 0

unfoldable pub within_window : Time → Time → Duration → Bool
within_window t1 t2 window = leb_ℤ (flip_negative (sub t1 t2)) window

-- `strconv.Atoi`, whose error the rule drops: 0 for what is no number, and the nearest int64 for
-- what does not fit.
unfoldable pub digits_value : ℕ → List ℕ → Option ℕ
digits_value acc [] = some acc
digits_value acc (c ∷ cs) =
    let rest = digits_value (acc * 10 + (c - b'0')) cs in
    if leb b'0' c && leb c b'9' then rest else none

abbrev signed : (ℕ → ℤ) → List ℕ → ℤ
signed f [] = pos 0
signed f (c ∷ cs) = elim (digits_value 0 (c ∷ cs)) [ none ↦ pos 0 | some n ↦ f n ]

abbrev negative : ℕ → ℤ
negative n = if n == 0 then pos 0 else negsuc (min (n - 1) max_ns)

abbrev atoi_codes : List ℕ → ℤ
atoi_codes [] = pos 0
atoi_codes (c ∷ cs) =
    if c == b'-'
    then signed negative cs
    else if c == b'+'
    then signed (λ n. pos (min n max_ns)) cs
    else signed (λ n. pos (min n max_ns)) (c ∷ cs)

unfoldable pub atoi : String → ℤ
unfolding digits_value
atoi s = atoi_codes (codes s)

-- The loop that looks for the nearest deployment: the best one so far, and its confidence.
unfoldable pub best_loop : Time → Option Evidence × ℕ → List Evidence → Option Evidence × ℕ
best_loop alert_time best [] = best
best_loop alert_time (best, best_confidence) (d ∷ ds) =
    let conf = proximity_confidence d.observed_at_from alert_time in
    best_loop alert_time
      (if ltb best_confidence conf then (some d, conf) else (best, best_confidence)) ds

-- The confidence and the supporting IDs, as the loops below leave them.
abbrev pub Backing : Type 0
Backing = ℕ × List String

unfoldable pub add_git_change : Backing → Evidence → Backing
add_git_change (confidence, supporting) gc = (
  if ltb_ℤ (pos 5) (atoi (lookup "files_changed" gc.attributes))
      then confidence + 10
      else confidence,
  supporting ++ gc.id ∷ [],
)

unfoldable pub add_git_changes : Backing → List Evidence → Backing
unfolding add_git_change
add_git_changes b [] = b
add_git_changes b (gc ∷ gcs) = add_git_changes (add_git_change b gc) gcs

-- A loop that ends at the first item that passes.
unfoldable pub add_first : (Evidence → Bool) → Backing → List Evidence → Backing
add_first test b [] = b
add_first test (confidence, supporting) (e ∷ es) =
    let rest = add_first test (confidence, supporting) es in
    if test e then (confidence + 5, supporting ++ e.id ∷ []) else rest

unfoldable pub is_close_log : Evidence → Evidence → Bool
is_close_log best l = is_high l && within_window l.observed_at_from best.observed_at_from (pos hour)

unfoldable pub is_later_metric : Evidence → Evidence → Bool
is_later_metric best m =
    is_high m
    && (evidence_contains m "memory" || evidence_contains m "cpu")
    && ltb best.observed_at_from m.observed_at_from

unfoldable pub short_sha_for_rule : String → String
short_sha_for_rule sha = if ltb 8 (len sha) then slice sha 0 8 else sha

-- How `time.Time` is printed as RFC 3339.
module _ (format : Time → String) where
  abbrev files_note : List Evidence → String
  files_note [] = ""
  files_note (gc ∷ gcs) =
      let rest = files_note gcs in
      let fc = lookup "files_changed" gc.attributes in
      if str_eq fc ""
      then rest
      else str_append "The deployment included " (
          str_append fc (
            str_append " files changed across "
              (str_append (lookup "commit_count" gc.attributes) " commits. ")))

  unfoldable pub build_narrative : Evidence → List Evidence → String
  unfolding short_sha_for_rule
  build_narrative deploy git_changes = str_append "Deployment of " (
      str_append (short_sha_for_rule (lookup "sha" deploy.attributes)) (
        str_append " to " (
          str_append (lookup "environment" deploy.attributes) (
            str_append " by " (
              str_append (lookup "creator" deploy.attributes) (
                str_append " occurred at " (
                  str_append (format deploy.observed_at_from) (
                    str_append ", within close temporal proximity to the alert onset. " (
                      str_append (files_note git_changes)
                        "This deployment is the primary suspect for the incident.")))))))))

  unfoldable pub blame : List Evidence → List Evidence → Option Evidence × ℕ → List Hypothesis
  unfolding build_narrative add_git_changes add_first is_close_log is_later_metric
  blame evidence deploys (none, best_confidence) = []
  blame evidence deploys (some best, best_confidence) =
      let git_changes = find_evidence_by_kind evidence evidence_git_change in
      let logs = find_evidence_by_kind evidence evidence_log in
      let metrics = find_evidence_by_kind evidence evidence_metric in
      let with_git = add_git_changes (best_confidence, evidence_ids deploys) git_changes in
      let with_logs = add_first (is_close_log best) with_git logs in
      let (confidence, supporting) = add_first (is_later_metric best) with_logs metrics in
      if best_confidence == 0
      then []
      else hypothesis "Recent deployment likely caused the incident"
          (build_narrative best git_changes) cause_deploy
          (if ltb 95 confidence then 95 else confidence) supporting
          (fix "Rollback to previous version"
              "Revert to the last known-good deployment to restore service health." true
            ∷ fix "Review deployment diff"
                "Examine the code changes in the deployment for the root cause of the failure." true
            ∷ [])
        ∷ []

  abbrev with_alerts :
      Time → List Evidence → List Evidence → List NormalizedAlert → Option (List Hypothesis)
  with_alerts now evidence deploys [] = none
  with_alerts now evidence deploys (a ∷ alerts) = some (
      blame evidence deploys
        (best_loop (if a.starts_at == 0 then now else a.starts_at) (none, 0) deploys))

  unfoldable pub deploy_proximity_rule : Time → InvestigationGraph → Option (List Hypothesis)
  deploy_proximity_rule now graph =
      let evidence = graph.investigation_data.evidence in
      let deploys = find_evidence_by_kind evidence evidence_deploy in
      if is_empty deploys
      then some []
      else with_alerts now evidence deploys graph.investigation_data.alerts
