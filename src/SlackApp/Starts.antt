-- ===== src/SlackApp/Starts.antt =====
-- internal/slack/app.go: the calls that the handlers share, and HandleSlashCommand and
-- HandleMessageShortcut.
use Prim.Native.String.{◌++◌ as str_append}
use sherlock.Prelude.{
  String, List, [], ◌∷◌, Option, none, some, str_eq, if◌then◌else◌, trim_text, Result, ok, err,
}
use sherlock.SlackTransport.{SlashCommand, MessageShortcut}
use sherlock.Receivers.{or_text}
use sherlock.SlackApp.{AppCall, post_started, enqueue, post_error, post_update, App}

module _ {E : Type 0} (a : App E) where
  abbrev pub Outcome : Type 0
  Outcome = Option E × List AppCall

  abbrev pub then_call : AppCall → Outcome → Outcome
  then_call call (e, calls) = (e, call ∷ calls)

  -- The last call of a handler, whose error the handler returns.
  abbrev pub reply : String → String → String → Outcome
  reply channel thread message =
      (a.update channel thread message, post_update channel thread message ∷ [])

  -- A message about a failure, whose own error is dropped.
  abbrev pub excuse : String → String → String → E → Outcome
  excuse channel thread message e = (some e, post_update channel thread message ∷ [])

  abbrev pub after_enqueue : String → String → String → String → Result E String → Outcome
  after_enqueue failure wrapping channel thread (ok id) = (none, [])
  after_enqueue failure wrapping channel thread (err e) = (
    some (a.wrapf wrapping e),
    post_error channel thread (str_append failure (a.message_of e)) ∷ [],
  )

  abbrev pub after_start : String → String → String → String → String → Result E String → Outcome
  after_start failure wrapping channel user text (err e) =
      (some (a.wrapf "post investigation started" e), [])
  after_start failure wrapping channel user text (ok thread) =
      then_call (enqueue channel thread user text) (
        after_enqueue failure wrapping channel thread
          (a.enqueue_investigation channel thread user text))

  -- The thread is started, and the investigation is enqueued for it.
  unfoldable pub start_investigation : String → String → String → String → String → Outcome
  start_investigation failure wrapping channel user text =
      then_call (post_started channel)
        (after_start failure wrapping channel user text (a.start_thread channel))

  unfoldable pub handle_slash_command : SlashCommand → Outcome
  unfolding start_investigation trim_text
  handle_slash_command cmd =
      if str_eq (trim_text cmd.text) ""
      then (none, [])
      else start_investigation "Failed to start investigation: " "enqueue investigation"
          cmd.channel_id cmd.user_id (trim_text cmd.text)

  unfoldable pub handle_message_shortcut : MessageShortcut → Outcome
  unfolding start_investigation trim_text
  handle_message_shortcut shortcut =
      start_investigation "Failed to start investigation: " "enqueue investigation"
        shortcut.channel_id shortcut.user_id
        (or_text (trim_text shortcut.message_text)
          (str_append "investigate message " shortcut.message_ts))
