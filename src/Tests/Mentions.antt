-- ===== src/Tests/Mentions.antt =====
-- A user of Slack who calls the application.
use sherlock.Prelude.{◌+◌, ◌≡◌, refl, String, [], ◌∷◌, none, some, ok, trim_text, to_lower}
use sherlock.Duration.{hour}
use sherlock.SlackTransport.{SlashCommand, MessageShortcut, InteractionAction}
use sherlock.SlackApp.{
  App, post_started, enqueue, post_update, get_investigation, get_alert, suppress, extract_arg,
  remove_mentions,
}
use sherlock.SlackApp.Starts.{handle_slash_command, handle_message_shortcut, start_investigation}
use sherlock.SlackApp.Buttons.{handle_interaction, first_field}
use sherlock.SlackApp.Mentions.{handle_app_mention, help_text}
use sherlock.SlackApp.Backed.{Backed}
use sherlock.SlackApp.Handled.{handle-Backed}
use sherlock.Tests.{alert, evidence, investigation, ten}

abbrev app : App String
app = record {
  start_thread = λ channel. ok "t1";
  enqueue_investigation = λ channel thread user text. ok "i";
  update = λ channel thread message. none;
  evidence_of = λ id. ok evidence;
  investigation_by_id = λ id. ok (record investigation { alert_ids = "a1" ∷ [] });
  alert_by_id = λ id. ok alert;
  create_suppression = some (λ fp until by reason. none);
  now = ten;
  print = λ n. "n";
  status_text = λ inv. "pending";
  message_of = λ e. e;
  wrapf = λ message e. message;
}

abbrev command : SlashCommand
command = record {
  command = "/sherlock";
  text = " cart ";
  user_id = "U1";
  channel_id = "C1";
  team_id = "";
  response_url = "";
  trigger_id = "";
}

abbrev shortcut : MessageShortcut
shortcut = record {
  callback_id = "";
  user_id = "U1";
  channel_id = "C1";
  message_ts = "1.0";
  message_text = "";
  trigger_id = "";
  response_url = "";
}

abbrev button : InteractionAction
button = record {
  action_id = "investigate_suppress_similar";
  value = "i";
  user_id = "U1";
  channel_id = "C1";
  message_ts = "1.0";
  trigger_id = "";
  response_url = "";
}

button_calls :
    (handle_interaction app button).1
    ≡ get_investigation "i"
      ∷ get_alert "a1"
      ∷ suppress "f1" (ten + hour) "U1" "Suppressed via Slack button"
      ∷ post_update "C1" "1.0" "Alerts with fingerprint `f1` will be suppressed for 1 hour."
      ∷ []
unfolding handle_interaction first_field
button_calls = refl

mention_calls :
    handle_app_mention app "C1" "U1" "<@U0BOT> Investigate  payment-api now"
    ≡ (none, post_started "C1" ∷ enqueue "C1" "t1" "U1" "payment-api" ∷ [])
unfolding handle_app_mention remove_mentions trim_text to_lower extract_arg start_investigation
mention_calls = refl

-- A service whose name has "help" in it cannot be investigated by a mention.
help_first :
    handle_app_mention app "C1" "U1" "<@U0BOT> investigate helpdesk"
    ≡ (none, post_update "C1" "" help_text ∷ [])
unfolding handle_app_mention remove_mentions trim_text to_lower
help_first = refl

handle-Backed_example :
    Backed app "C1" "U1" (handle_slash_command app command)
    × Backed app "C1" "U1" (handle_message_shortcut app shortcut)
    × Backed app "C1" "U1" (handle_interaction app button)
    × Backed app "C1" "U1" (handle_app_mention app "C1" "U1" "investigate cart")
handle-Backed_example = handle-Backed app command shortcut button "C1" "U1" "investigate cart"
