-- ===== src/SlackApp/Handled.antt =====
-- What Slack's events make the application do.
use sherlock.Prelude.{
  ◌≡◌, ◌≢◌, refl, String, Bool, false, List, [], ◌∷◌, Option, none, some, str_eq, str_eq_complete,
  filter_bool, trim_text, Result, ok, err, All, All-append, Bool-cases, inl, inr,
}
use sherlock.Contracts.{Evidence, Investigation, NormalizedAlert, lookup, Time}
use sherlock.SlackTransport.{SlashCommand, MessageShortcut, InteractionAction}
use sherlock.SlackApp.{AppCall, list_evidence, get_investigation, App, remove_mentions}
use sherlock.SlackApp.Messages.{is_deploy_item}
use sherlock.SlackApp.Starts.{Outcome, handle_slash_command, handle_message_shortcut}
use sherlock.SlackApp.Buttons.{
  after_calls, after_evidence, with_evidence, expand_evidence, compare_items, after_investigation,
  with_investigation, field_of, first_field, open_runbook, after_create, create_with,
  suppress_similar, handle_interaction,
}
use sherlock.SlackApp.Mentions.{handle_app_mention}
use sherlock.SlackApp.Backed.{
  IsFingerprint, IsBacked, Backed, Backed-if, Backed-then, Backed-reply, start_investigation-Backed,
  mention_reply-Backed,
}

module _ {E : Type 0} (a : App E) where
  module _ (action : InteractionAction) where
    abbrev Done : Outcome a → Type 0
    Done = Backed a action.channel_id action.user_id

    after_evidence-Backed :
        (next : List Evidence → Outcome a) (r : Result E (List Evidence))
        → ((evidence : List Evidence) → Done (next evidence))
        → Done (after_evidence a next action r)
    after_evidence-Backed next (err e) h = record { calls = (refl, tt) }
    after_evidence-Backed next (ok evidence) h = h evidence

    expand_evidence-Backed : (evidence : List Evidence) → Done (expand_evidence a action evidence)
    expand_evidence-Backed [] = Backed-reply a action.channel_id action.user_id _ _
    expand_evidence-Backed (e ∷ evidence) = Backed-reply a action.channel_id action.user_id _ _

    compare_items-Backed : (items : List Evidence) → Done (compare_items a action items)
    compare_items-Backed [] = Backed-reply a action.channel_id action.user_id _ _
    compare_items-Backed (e ∷ items) = Backed-reply a action.channel_id action.user_id _ _

    after_investigation-Backed :
        (failure : String) (next : Investigation → Outcome a) (r : Result E Investigation)
        → ((inv : Investigation) → Done (next inv))
        → Done (after_investigation a failure next action r)
    after_investigation-Backed failure next (err e) h = record { calls = (refl, tt) }
    after_investigation-Backed failure next (ok inv) h = h inv

    -- Reading alerts is backed, and what is found there is the field of one of them, unless empty.
    first_field-Backed :
        (field : NormalizedAlert → String) (ids : List String)
        → All (IsBacked a action.channel_id action.user_id) (first_field a field ids).1
    unfolding first_field
    first_field-Backed field [] = tt
    first_field-Backed field (id ∷ ids) =
        elim (Bool-cases (str_eq (field_of a field (a.alert_by_id id)) "")) [
          | inl blank ↦ rw blank (tt, first_field-Backed field ids)
          | inr found ↦ rw found (tt, tt)
        ]

    field_of-IsFingerprint :
        (id : String) (r : Result E NormalizedAlert)
        → a.alert_by_id id ≡ r
        → str_eq (field_of a (λ alert. alert.fingerprint) r) "" ≡ false
        → IsFingerprint a (field_of a (λ alert. alert.fingerprint) r)
    field_of-IsFingerprint id (err e) h n = absurd (cc)
    field_of-IsFingerprint id (ok alert) h n = (id, alert, h, refl)

    first_field-IsFingerprint :
        (ids : List String)
        → str_eq (first_field a (λ alert. alert.fingerprint) ids).0 "" ≡ false
        → IsFingerprint a (first_field a (λ alert. alert.fingerprint) ids).0
    unfolding first_field
    first_field-IsFingerprint [] n = absurd (cc)
    first_field-IsFingerprint (id ∷ ids) n =
        elim (Bool-cases (str_eq (field_of a (λ alert. alert.fingerprint) (a.alert_by_id id)) "")) [
          | inl blank ↦ rw blank (first_field-IsFingerprint ids (rw blank at n))
          | inr found ↦ rw found (field_of-IsFingerprint id (a.alert_by_id id) refl found)
        ]

    after_create-Backed : (fp : String) (r : Option E) → Done (after_create a action fp r)
    after_create-Backed fp (some e) = record { calls = (refl, tt) }
    after_create-Backed fp none = Backed-reply a action.channel_id action.user_id _ _

    create_with-Backed :
        (fp : String) (create : Option (String → Time → String → String → Option E))
        → fp ≢ ""
        → IsFingerprint a fp
        → Done (create_with a action fp create)
    create_with-Backed fp none n h = Backed-reply a action.channel_id action.user_id _ _
    create_with-Backed fp (some create) n h =
        Backed-then a action.channel_id action.user_id _ _ (n, h, refl, refl)
          (after_create-Backed fp _)

    after_calls-Backed :
        (calls : List AppCall) (o : Outcome a)
        → All (IsBacked a action.channel_id action.user_id) calls
        → Done o
        → Done (after_calls a calls o)
    after_calls-Backed calls o h k = record { calls = All-append _ calls o.1 h k.calls }

    suppress_similar-Backed : (inv : Investigation) → Done (suppress_similar a action inv)
    suppress_similar-Backed inv =
        let found = first_field a (λ alert. alert.fingerprint) inv.alert_ids in
        after_calls-Backed found.1 _ (first_field-Backed (λ alert. alert.fingerprint) inv.alert_ids)
          (elim (Bool-cases (str_eq found.0 "")) [
            | inl blank ↦ rw blank (Backed-reply a action.channel_id action.user_id _ _)
            | inr given ↦ rw given (
                create_with-Backed found.0 a.create_suppression
                  (λ e. cc (str_eq_complete found.0 "" e))
                  (first_field-IsFingerprint inv.alert_ids given))
          ])

    open_runbook-Backed : (inv : Investigation) → Done (open_runbook a action inv)
    open_runbook-Backed inv =
        after_calls-Backed
          (first_field a (λ alert. lookup "runbook_url" alert.annotations) inv.alert_ids).1 _
          (first_field-Backed (λ alert. lookup "runbook_url" alert.annotations) inv.alert_ids)
          (Backed-reply a action.channel_id action.user_id _ _)

    with_evidence-Backed :
        (next : List Evidence → Outcome a)
        → ((evidence : List Evidence) → Done (next evidence))
        → Done (with_evidence a next action)
    with_evidence-Backed next h =
        Backed-then a action.channel_id action.user_id (list_evidence action.value) _ tt
          (after_evidence-Backed next (a.evidence_of action.value) h)

    with_investigation-Backed :
        (failure : String) (next : Investigation → Outcome a)
        → ((inv : Investigation) → Done (next inv))
        → Done (with_investigation a failure next action)
    with_investigation-Backed failure next h =
        Backed-then a action.channel_id action.user_id (get_investigation action.value) _ tt
          (after_investigation-Backed failure next (a.investigation_by_id action.value) h)

    handle_interaction-Backed : Done (handle_interaction a action)
    unfolding handle_interaction
    handle_interaction-Backed =
        let c = action.channel_id in
        let u = action.user_id in
        let is : String → Bool = λ id. str_eq action.action_id id in
        Backed-if a c u (is "investigate_rerun") _ _
          (start_investigation-Backed a c u _ _ action.value)
          (Backed-if a c u (is "investigate_force_reinvestigate") _ _
            (start_investigation-Backed a c u _ _ action.value)
            (Backed-if a c u (is "investigate_expand_evidence") _ _
              (with_evidence-Backed _ expand_evidence-Backed)
              (Backed-if a c u (is "investigate_open_runbook") _ _
                (with_investigation-Backed _ _ open_runbook-Backed)
                (Backed-if a c u (is "investigate_suppress_similar") _ _
                  (with_investigation-Backed _ _ suppress_similar-Backed)
                  (Backed-if a c u (is "investigate_compare_deployments") _ _
                    (with_evidence-Backed _ (λ evidence.
                      compare_items-Backed (filter_bool (is_deploy_item a.print) evidence)))
                    (Backed-if a c u (is "investigate_create_issue") _ _
                      (with_investigation-Backed _ _ (λ inv. Backed-reply a c u _ _))
                      (record { calls = tt })))))))

  slash_command-Backed :
      (cmd : SlashCommand) → Backed a cmd.channel_id cmd.user_id (handle_slash_command a cmd)
  unfolding handle_slash_command
  slash_command-Backed cmd = elim (Bool-cases (str_eq (trim_text cmd.text) "")) [
    | inl blank ↦ rw blank (record { calls = tt })
    | inr given ↦
        rw given (start_investigation-Backed a cmd.channel_id cmd.user_id _ _ (trim_text cmd.text))
  ]

  -- Whatever a command, a shortcut, a button or a mention makes the application do, it does in the
  -- event's channel and for the event's user: an investigation is enqueued for a thread that was just
  -- started there, and alerts are suppressed for an hour by a fingerprint that is not empty and that an
  -- alert has.
  pub handle-Backed :
      (cmd : SlashCommand) (shortcut : MessageShortcut) (action : InteractionAction)
      (channel user text : String)
      → Backed a cmd.channel_id cmd.user_id (handle_slash_command a cmd)
        × Backed a shortcut.channel_id shortcut.user_id (handle_message_shortcut a shortcut)
        × Backed a action.channel_id action.user_id (handle_interaction a action)
        × Backed a channel user (handle_app_mention a channel user text)
  unfolding handle_message_shortcut handle_app_mention
  handle-Backed cmd shortcut action channel user text = (
    slash_command-Backed cmd,
    start_investigation-Backed a shortcut.channel_id shortcut.user_id _ _ _,
    handle_interaction-Backed action,
    mention_reply-Backed a channel user (trim_text (remove_mentions 0 text)),
  )
