-- ===== src/SlackApp/Messages.antt =====
-- internal/slack/app.go: the texts of handleExpandEvidence, handleCompareDeployments and handleCreateIssue.
-- A cut of bytes is one of characters here.
use Prim.Native.String.{◌++◌ as str_append}
use sherlock.Prelude.{
  ℕ, ◌+◌, ◌-◌, ltb, leb, String, Bool, ◌||◌, List, [], ◌∷◌, str_eq, if◌then◌else◌, filter_bool,
  length,
}
use sherlock.Contracts.{
  Evidence, Investigation, Hypothesis, SuggestedFix, lookup, evidence_k8s_state, evidence_log,
  evidence_metric, evidence_event, evidence_deploy, evidence_git_change,
}
use sherlock.Matches.{take_text, cut_line}
use sherlock.Receivers.{or_text}
use sherlock.SlackApp.{byte_length, concat_text, evidence_trace, evidence_config}

-- `truncateSlackText` of publisher.go.
abbrev pub truncate_slack_text : String → ℕ → String
truncate_slack_text s max_len =
    if leb (byte_length s) max_len then s else str_append (take_text (max_len - 3) s) "..."

abbrev pub first_line : String → String
first_line s = (cut_line s).0

abbrev pub short_sha : String → String
short_sha sha = if ltb 8 (byte_length sha) then take_text 8 sha else sha

abbrev pub item_line : Evidence → String
item_line e = concat_text ("• " ∷ e.summary ∷ "\n" ∷ [])

-- The items of one kind, up to 2800 bytes of the whole text.
unfoldable pub items_loop : String → List Evidence → String
items_loop sb [] = sb
items_loop sb (e ∷ items) =
    let rest = items_loop (str_append sb (item_line e)) items in
    if ltb 2800 (byte_length sb + byte_length (item_line e))
    then str_append sb "• _... truncated_\n"
    else rest

abbrev pub kind_order : List String
kind_order =
    evidence_k8s_state ∷ evidence_log ∷ evidence_metric ∷ evidence_event ∷ evidence_deploy
    ∷ evidence_git_change ∷ evidence_trace ∷ evidence_config ∷ []

module _ (print : ℕ → String) where
  abbrev pub kind_header : String → List Evidence → String
  kind_header kind items =
      concat_text ("\n*[" ∷ kind ∷ "]* (" ∷ print (length items) ∷ " items)\n" ∷ [])

  -- One kind that has items, and what goes on from there.
  abbrev pub kind_section : String → String → List Evidence → (String → String) → String
  kind_section sb kind [] next = next sb
  kind_section sb kind (e ∷ items) next =
      let shown = items_loop (str_append sb (kind_header kind (e ∷ items))) (e ∷ items) in
      let rest = next shown in if ltb 2800 (byte_length shown) then shown else rest

  unfoldable pub kinds_loop : List Evidence → String → List String → String
  unfolding items_loop
  kinds_loop evidence sb [] = sb
  kinds_loop evidence sb (kind ∷ kinds) =
      kind_section sb kind (filter_bool (λ e. str_eq e.kind kind) evidence)
        (λ sb'. kinds_loop evidence sb' kinds)

  unfoldable pub evidence_message : String → List Evidence → String
  unfolding kinds_loop
  evidence_message id evidence =
      kinds_loop evidence (concat_text ("*Evidence for investigation " ∷ id ∷ ":*\n" ∷ []))
        kind_order

  abbrev pub is_deploy_item : Evidence → Bool
  is_deploy_item e = str_eq e.kind evidence_deploy || str_eq e.kind evidence_git_change

  abbrev pub deploy_text : Evidence → String
  deploy_text e = concat_text (
      "\n*Deploy:* `"
      ∷ short_sha (lookup "sha" e.attributes)
      ∷ "` to `"
      ∷ lookup "environment" e.attributes
      ∷ "` by "
      ∷ lookup "creator" e.attributes
      ∷ " (status: "
      ∷ lookup "status" e.attributes
      ∷ ")\n"
      ∷ [])

  abbrev pub change_text : Evidence → String
  change_text e =
      let files = lookup "files_changed" e.attributes in
      let commits = lookup "commit_count" e.attributes in
      let msg = lookup "message" e.attributes in
      str_append
        (if str_eq files ""
          then ""
          else concat_text ("• " ∷ files ∷ " files changed across " ∷ commits ∷ " commits\n" ∷ []))
        (if str_eq msg ""
          then concat_text ("• " ∷ truncate_slack_text e.summary 200 ∷ "\n" ∷ [])
          else concat_text ("• Commit: " ∷ truncate_slack_text (first_line msg) 120 ∷ "\n" ∷ []))

  unfoldable pub deploys_loop : String → List Evidence → String
  deploys_loop sb [] = sb
  deploys_loop sb (e ∷ items) =
      let shown =
        str_append sb (if str_eq e.kind evidence_deploy then deploy_text e else change_text e) in
      let rest = deploys_loop shown items in
      if ltb 2800 (byte_length shown) then str_append shown "_... truncated_\n" else rest

  abbrev pub fix_lines : List SuggestedFix → String
  fix_lines [] = ""
  fix_lines (f ∷ []) = str_append "- " f.title
  fix_lines (f ∷ g ∷ fixes) = concat_text ("- " ∷ f.title ∷ "\n" ∷ fix_lines (g ∷ fixes) ∷ [])

  abbrev pub actions_text : List SuggestedFix → String
  actions_text [] = "_No recommended actions_"
  actions_text (f ∷ fixes) = fix_lines (f ∷ fixes)

  abbrev pub issue_text : String → String → ℕ → String → String
  issue_text headline narrative confidence actions = concat_text (
      "*Issue Template (copy to create)*\n*Title:* [Investigation] "
      ∷ headline
      ∷ "\n\n*Body:*\n## Root Cause\n"
      ∷ narrative
      ∷ "\n\n## Confidence: "
      ∷ print confidence
      ∷ "%\n\n## Recommended Actions\n"
      ∷ actions
      ∷ [])

  -- By the first hypothesis, if there is one.
  abbrev pub issue_by : String → ℕ → List Hypothesis → String
  issue_by headline confidence [] =
      issue_text headline "No hypothesis available." confidence (actions_text [])
  issue_by headline confidence (top ∷ hs) =
      issue_text headline top.narrative
        (if ltb 0 top.confidence then top.confidence else confidence)
        (actions_text top.suggested_fixes)

  abbrev pub issue_message : String → Investigation → String
  issue_message id inv =
      issue_by (or_text inv.headline (str_append "Investigation " id)) inv.confidence inv.hypotheses
