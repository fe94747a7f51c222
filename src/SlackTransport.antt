-- ===== src/SlackTransport.antt =====
-- internal/slack/transport/http.go: the handlers of Slack's requests. HMAC, the parser of numbers, of
-- forms and of JSON are parameters. A handler returns its status with the calls of the application
-- that it starts. Its request's body is read once: what is read is gone.
pub mod Verified
pub mod Forms
use Prim.Native.String.{◌++◌ as str_append}
use sherlock.Prelude.{
  ℕ, ◌+◌, ◌-◌, ◌^◌, String, Bool, true, false, List, [], ◌∷◌, map, Option, none, some, str_eq,
  if◌then◌else◌, Result, ok, err, ℤ, pos, negsuc, ◌-ℤ◌, leb_ℤ, ltb_ℤ, ◌&&◌, not,
}
use sherlock.Contracts.{Attributes, lookup}

pub record SlashCommand : Type 0 where
  pub command : String
  pub text : String
  pub user_id : String
  pub channel_id : String
  pub team_id : String
  pub response_url : String
  pub trigger_id : String

pub record MessageShortcut : Type 0 where
  pub callback_id : String
  pub user_id : String
  pub channel_id : String
  pub message_ts : String
  pub message_text : String
  pub trigger_id : String
  pub response_url : String

pub record InteractionAction : Type 0 where
  pub action_id : String
  pub value : String
  pub user_id : String
  pub channel_id : String
  pub message_ts : String
  pub trigger_id : String
  pub response_url : String

-- The decoded payload of an interaction, its inner objects' fields side by side.
pub record InteractionPayload : Type 0 where
  pub type : String
  pub callback_id : String
  pub trigger_id : String
  pub response_url : String
  pub user_id : String
  pub channel_id : String
  pub message_ts : String
  pub message_text : String
  pub actions : List (String × String)

pub record EventEnvelope : Type 0 where
  pub type : String
  pub challenge : String
  pub event_type : String
  pub event_user : String
  pub event_text : String
  pub event_channel : String

-- The calls of the application.
pub data HandlerCall : Type 0 where
  slash_command : SlashCommand → HandlerCall
  message_shortcut : MessageShortcut → HandlerCall
  interaction : InteractionAction → HandlerCall
  app_mention : (channel user text : String) → HandlerCall

pub data Status : Type 0 where
  status_ok bad_request invalid_signature missing_payload bad_payload : Status

pub record HttpTransport (E : Type 0) : Type 0 where
  pub signing_secret : String
  pub hmac_hex : String → String → String
  pub parse_int : String → Option ℤ
  -- From the content type, the body and the query string.
  pub parse_form : String → String → String → Result E Attributes
  pub decode_interaction : String → Option InteractionPayload
  pub decode_event : String → Option EventEnvelope

pub record HttpRequest (E : Type 0) : Type 0 where
  pub headers : Attributes
  pub query : String
  pub body : Result E String

-- A difference as Go computes it on int64.
unfoldable pub wrap_int64 : ℤ → ℤ
wrap_int64 d =
    if ltb_ℤ (pos 9223372036854775807) d
    then d -ℤ pos 18446744073709551616
    else if ltb_ℤ d (negsuc 9223372036854775807)
    then d -ℤ negsuc 18446744073709551615
    else d

-- `math.Abs(d) > 300`
abbrev pub is_far : ℤ → Bool
is_far d = if ltb_ℤ d (negsuc 299) then true else ltb_ℤ (pos 300) d

unfoldable pub is_stale : ℤ → ℤ → Bool
unfolding wrap_int64 ◌-ℤ◌
is_stale now ts = is_far (wrap_int64 (now -ℤ ts))

module _ {E : Type 0} (t : HttpTransport E) (now : ℤ) where
  abbrev pub signature_of : String → String → String
  signature_of timestamp body =
      str_append "v0=" (
        t.hmac_hex t.signing_secret (str_append "v0:" (str_append timestamp (str_append ":" body))))

  abbrev pub verify_at : String → String → String → Option ℤ → Bool
  verify_at timestamp body signature none = false
  verify_at timestamp body signature (some ts) =
      if is_stale now ts then false else str_eq (signature_of timestamp body) signature

  unfoldable pub verify_slack_signature : String → String → String → Bool
  verify_slack_signature timestamp body signature =
      verify_at timestamp body signature (t.parse_int timestamp)

  unfoldable pub verify_request : HttpRequest E → String → Bool
  unfolding verify_slack_signature
  verify_request r body =
      verify_slack_signature (lookup "X-Slack-Request-Timestamp" r.headers) body
        (lookup "X-Slack-Signature" r.headers)

  abbrev pub command_of : Attributes → SlashCommand
  command_of form = record {
    command = lookup "command" form;
    text = lookup "text" form;
    user_id = lookup "user_id" form;
    channel_id = lookup "channel_id" form;
    team_id = lookup "team_id" form;
    response_url = lookup "response_url" form;
    trigger_id = lookup "trigger_id" form;
  }

  abbrev pub slash_form : Result E Attributes → Status × List HandlerCall
  slash_form (err e) = (bad_request, [])
  slash_form (ok form) = (status_ok, slash_command (command_of form) ∷ [])

  abbrev pub shortcut_of : InteractionPayload → MessageShortcut
  shortcut_of p = record {
    callback_id = p.callback_id;
    user_id = p.user_id;
    channel_id = p.channel_id;
    message_ts = p.message_ts;
    message_text = p.message_text;
    trigger_id = p.trigger_id;
    response_url = p.response_url;
  }

  abbrev pub action_of : InteractionPayload → String × String → InteractionAction
  action_of p (action_id, value) = record {
    action_id = action_id;
    value = value;
    user_id = p.user_id;
    channel_id = p.channel_id;
    message_ts = p.message_ts;
    trigger_id = p.trigger_id;
    response_url = p.response_url;
  }

  -- The calls of the goroutine of an interaction.
  unfoldable pub interaction_calls : InteractionPayload → List HandlerCall
  interaction_calls p =
      if str_eq p.type "message_action"
      then message_shortcut (shortcut_of p) ∷ []
      else if str_eq p.type "block_actions"
      then map (λ a. interaction (action_of p a)) p.actions
      else []

  abbrev pub interaction_payload : Option InteractionPayload → Status × List HandlerCall
  interaction_payload none = (bad_payload, [])
  interaction_payload (some p) = (status_ok, interaction_calls p)

  abbrev pub interaction_form : Result E Attributes → Status × List HandlerCall
  interaction_form (err e) = (bad_request, [])
  interaction_form (ok form) =
      if str_eq (lookup "payload" form) ""
      then (missing_payload, [])
      else interaction_payload (t.decode_interaction (lookup "payload" form))

  unfoldable pub event_calls : EventEnvelope → List HandlerCall
  event_calls e =
      if str_eq e.type "url_verification"
      then []
      else if str_eq e.type "event_callback" && str_eq e.event_type "app_mention"
      then app_mention e.event_channel e.event_user e.event_text ∷ []
      else []

  abbrev pub event_envelope : Option EventEnvelope → Status × List HandlerCall
  event_envelope none = (bad_payload, [])
  event_envelope (some e) = (status_ok, event_calls e)

  -- How each handler begins: it reads the body and checks its signature. `next` has the body that was
  -- read, and the request with what is left of it.
  abbrev pub read_verified :
      HttpRequest E
      → (String → HttpRequest E → Status × List HandlerCall)
      → Result E String
      → Status × List HandlerCall
  read_verified r next (err e) = (bad_request, [])
  read_verified r next (ok body) =
      if verify_request r body
      then next body (record r { body = ok "" })
      else (invalid_signature, [])

  -- `r.ParseForm()`, which reads the body.
  abbrev pub parse_form_of : HttpRequest E → Result E String → Result E Attributes
  parse_form_of r (err e) = err e
  parse_form_of r (ok body) = t.parse_form (lookup "Content-Type" r.headers) body r.query

  abbrev pub slash_next : String → HttpRequest E → Status × List HandlerCall
  slash_next body r = slash_form (parse_form_of r r.body)

  abbrev pub interaction_next : String → HttpRequest E → Status × List HandlerCall
  interaction_next body r = interaction_form (parse_form_of r r.body)

  abbrev pub event_next : String → HttpRequest E → Status × List HandlerCall
  event_next body r = event_envelope (t.decode_event body)

  unfoldable pub handle_slash_command : HttpRequest E → Status × List HandlerCall
  unfolding verify_request
  handle_slash_command r = read_verified r slash_next r.body

  unfoldable pub handle_interaction : HttpRequest E → Status × List HandlerCall
  unfolding verify_request interaction_calls
  handle_interaction r = read_verified r interaction_next r.body

  unfoldable pub handle_event : HttpRequest E → Status × List HandlerCall
  unfolding verify_request event_calls
  handle_event r = read_verified r event_next r.body
