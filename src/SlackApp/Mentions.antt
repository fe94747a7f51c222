-- ===== src/SlackApp/Mentions.antt =====
-- internal/slack/app.go: HandleAppMention.
use sherlock.Prelude.{
  String, [], ◌∷◌, str_eq, if◌then◌else◌, codes, to_lower, contains, trim_text, Result, ok, err,
}
use sherlock.Contracts.{Investigation}
use sherlock.SlackApp.{get_investigation, App, concat_text, extract_arg, remove_mentions}
use sherlock.SlackApp.Starts.{Outcome, then_call, reply, start_investigation}

abbrev pub help_text : String
help_text =
    "*Sherlock Commands:*\n• `@sherlock investigate <service>` — start an investigation\n• `@sherlock status <investigation-id>` — check investigation status\n• `@sherlock help` — show this message"

module _ {E : Type 0} (a : App E) where
  abbrev pub mention_investigate : String → String → String → Outcome a
  mention_investigate channel user service =
      if str_eq service ""
      then reply a channel ""
          "Please specify a service to investigate. Example: `@sherlock investigate payment-api`"
      else start_investigation a "Failed to start investigation: " "enqueue investigation" channel
          user service

  abbrev pub status_reply : String → String → Result E Investigation → Outcome a
  status_reply channel id (err e) =
      reply a channel "" (concat_text ("Could not find investigation `" ∷ id ∷ "`." ∷ []))
  status_reply channel id (ok inv) = reply a channel "" (
      concat_text (
        "*Investigation "
        ∷ inv.id
        ∷ "*\n• Status: `"
        ∷ a.status_text inv
        ∷ "`\n• Headline: "
        ∷ inv.headline
        ∷ "\n• Confidence: "
        ∷ a.print inv.confidence
        ∷ "%"
        ∷ []))

  abbrev pub mention_status : String → String → Outcome a
  mention_status channel id =
      if str_eq id ""
      then reply a channel ""
          "Please specify an investigation ID. Example: `@sherlock status inv-abc123`"
      else then_call a (get_investigation id) (status_reply channel id (a.investigation_by_id id))

  abbrev pub mention_reply : String → String → String → Outcome a
  mention_reply channel user cleaned =
      if contains (to_lower cleaned) (codes "help")
      then reply a channel "" help_text
      else if contains (to_lower cleaned) (codes "investigate")
      then mention_investigate channel user (extract_arg cleaned "investigate")
      else if contains (to_lower cleaned) (codes "status")
      then mention_status channel (extract_arg cleaned "status")
      else reply a channel ""
          "I didn't understand that. Try `@sherlock help` for available commands."

  unfoldable pub handle_app_mention : String → String → String → Outcome a
  unfolding remove_mentions trim_text to_lower extract_arg start_investigation
  handle_app_mention channel user text =
      mention_reply channel user (trim_text (remove_mentions 0 text))
