-- ===== src/SlackApp/Buttons.antt =====
-- internal/slack/app.go: HandleInteraction.
use sherlock.Prelude.{
  ℕ, ◌+◌, String, List, [], ◌∷◌, ◌++◌, Option, none, some, str_eq, if◌then◌else◌, filter_bool,
  Result, ok, err,
}
use sherlock.Contracts.{Evidence, Investigation, NormalizedAlert, lookup}
use sherlock.Duration.{hour}
use sherlock.SlackTransport.{InteractionAction}
use sherlock.SlackApp.{
  AppCall, list_evidence, get_investigation, get_alert, suppress, App, concat_text,
}
use sherlock.SlackApp.Messages.{evidence_message, is_deploy_item, deploys_loop, issue_message}
use sherlock.SlackApp.Starts.{Outcome, then_call, reply, excuse, start_investigation}

module _ {E : Type 0} (a : App E) where
  abbrev pub after_evidence :
      (List Evidence → Outcome a) → InteractionAction → Result E (List Evidence) → Outcome a
  after_evidence next action (err e) =
      excuse a action.channel_id action.message_ts "Failed to retrieve evidence."
        (a.wrapf "list evidence" e)
  after_evidence next action (ok evidence) = next evidence

  abbrev pub with_evidence : (List Evidence → Outcome a) → InteractionAction → Outcome a
  with_evidence next action =
      then_call a (list_evidence action.value)
        (after_evidence next action (a.evidence_of action.value))

  abbrev pub expand_evidence : InteractionAction → List Evidence → Outcome a
  expand_evidence action [] =
      reply a action.channel_id action.message_ts "No evidence collected for this investigation."
  expand_evidence action (e ∷ evidence) =
      reply a action.channel_id action.message_ts
        (evidence_message a.print action.value (e ∷ evidence))

  abbrev pub compare_items : InteractionAction → List Evidence → Outcome a
  compare_items action [] =
      reply a action.channel_id action.message_ts
        "No deployment data available for this investigation."
  compare_items action (e ∷ items) =
      reply a action.channel_id action.message_ts
        (deploys_loop a.print "*Deployment Comparison:*\n" (e ∷ items))

  abbrev pub compare_deployments : InteractionAction → List Evidence → Outcome a
  compare_deployments action evidence =
      compare_items action (filter_bool (is_deploy_item a.print) evidence)

  abbrev pub after_investigation :
      String → (Investigation → Outcome a) → InteractionAction → Result E Investigation → Outcome a
  after_investigation failure next action (err e) =
      excuse a action.channel_id action.message_ts failure (a.wrapf "get investigation" e)
  after_investigation failure next action (ok inv) = next inv

  abbrev pub with_investigation :
      String → (Investigation → Outcome a) → InteractionAction → Outcome a
  with_investigation failure next action =
      then_call a (get_investigation action.value)
        (after_investigation failure next action (a.investigation_by_id action.value))

  -- The field of the first alert that can be read and has it, or "", with the alerts that were read.
  abbrev pub field_of : (NormalizedAlert → String) → Result E NormalizedAlert → String
  field_of field (err e) = ""
  field_of field (ok alert) = field alert

  unfoldable pub first_field : (NormalizedAlert → String) → List String → String × List AppCall
  first_field field [] = ("", [])
  first_field field (id ∷ ids) =
      let found = field_of field (a.alert_by_id id) in
      let (later, calls) = first_field field ids in
      if str_eq found "" then (later, get_alert id ∷ calls) else (found, get_alert id ∷ [])

  abbrev pub after_calls : List AppCall → Outcome a → Outcome a
  after_calls calls (e, more) = (e, calls ++ more)

  abbrev pub runbook_reply : InteractionAction → String × List AppCall → Outcome a
  runbook_reply action (url, calls) = after_calls calls (
      reply a action.channel_id action.message_ts (
        if str_eq url ""
        then "No runbook URL configured for this alert."
        else concat_text ("*Runbook:* <" ∷ url ∷ "|Open Runbook>" ∷ [])))

  abbrev pub open_runbook : InteractionAction → Investigation → Outcome a
  open_runbook action inv =
      runbook_reply action
        (first_field (λ alert. lookup "runbook_url" alert.annotations) inv.alert_ids)

  abbrev pub after_create : InteractionAction → String → Option E → Outcome a
  after_create action fingerprint (some e) =
      excuse a action.channel_id action.message_ts "Failed to create suppression."
        (a.wrapf "create suppression" e)
  after_create action fingerprint none = reply a action.channel_id action.message_ts (
      concat_text
        ("Alerts with fingerprint `" ∷ fingerprint ∷ "` will be suppressed for 1 hour." ∷ []))

  abbrev pub create_with :
      InteractionAction → String → Option (String → ℕ → String → String → Option E) → Outcome a
  create_with action fingerprint none =
      reply a action.channel_id action.message_ts "Suppression store not configured."
  create_with action fingerprint (some create) =
      then_call a (suppress fingerprint (a.now + hour) action.user_id "Suppressed via Slack button")
        (after_create action fingerprint
          (create fingerprint (a.now + hour) action.user_id "Suppressed via Slack button"))

  abbrev pub suppress_found : InteractionAction → String × List AppCall → Outcome a
  suppress_found action (fingerprint, calls) = after_calls calls (
      if str_eq fingerprint ""
      then reply a action.channel_id action.message_ts
          "No fingerprint found for this investigation's alerts."
      else create_with action fingerprint a.create_suppression)

  abbrev pub suppress_similar : InteractionAction → Investigation → Outcome a
  suppress_similar action inv =
      suppress_found action (first_field (λ alert. alert.fingerprint) inv.alert_ids)

  abbrev pub create_issue : InteractionAction → Investigation → Outcome a
  create_issue action inv =
      reply a action.channel_id action.message_ts (issue_message a.print action.value inv)

  unfoldable pub handle_interaction : InteractionAction → Outcome a
  unfolding start_investigation first_field evidence_message deploys_loop
  handle_interaction action =
      if str_eq action.action_id "investigate_rerun"
      then start_investigation a "Failed to re-run investigation: " "enqueue re-run investigation"
          action.channel_id action.user_id action.value
      else if str_eq action.action_id "investigate_force_reinvestigate"
      then start_investigation a "Failed to force re-investigate: " "enqueue force re-investigate"
          action.channel_id action.user_id action.value
      else if str_eq action.action_id "investigate_expand_evidence"
      then with_evidence (expand_evidence action) action
      else if str_eq action.action_id "investigate_open_runbook"
      then with_investigation "Failed to look up investigation for runbook." (open_runbook action)
          action
      else if str_eq action.action_id "investigate_suppress_similar"
      then with_investigation "Failed to look up investigation." (suppress_similar action) action
      else if str_eq action.action_id "investigate_compare_deployments"
      then with_evidence (compare_deployments action) action
      else if str_eq action.action_id "investigate_create_issue"
      then with_investigation "Failed to look up investigation." (create_issue action) action
      else (none, [])
