-- ===== src/Tests/Webhooks.antt =====
-- A webhook of two alerts, of which the second is suppressed.
use sherlock.Prelude.{
  ℕ, err, str_eq, ◌≡◌, ◌⊎◌, refl, String, List, [], ◌∷◌, none, some, ok, ◌==◌, if◌then◌else◌, false,
}
use sherlock.Contracts.{NormalizedAlert, ActiveInvestigation}
use sherlock.Dedup.{InvestigationLookup}
use sherlock.Dedup.Gated.{IsLinked, IsPublished, handle_alert-gated}
use sherlock.Gateway.{
  AlertReceiver, Gateway, Request, accepted, internal_error, put_raw_payload, suppress_check,
  publish, count_suppress_hit, count_webhook, observe_duration, handle_webhook,
}
use sherlock.Gateway.Wanted.{payloads, wanted, until_refused, any_refused, count_skipped}
use sherlock.Gateway.Answers.{
  IsAccepted, handle_webhook-publishes, handle_webhook-IsAccepted, answer_of,
}
use sherlock.Tests.{alert, new_id, ten}

abbrev two_alerts : List NormalizedAlert
two_alerts = alert ∷ record alert { fingerprint = "f2" } ∷ []

abbrev grafana : AlertReceiver String
grafana = record { verify = λ h b. none; decode = λ h b. ok two_alerts }

abbrev gateway : Gateway String
gateway = record {
  receivers = ("grafana", grafana) ∷ [];
  put_blob = λ k b. none;
  dedup = none;
  has_notifier = false;
  suppress = some (λ i fp. ok (i == 1));
  publisher = λ i subject payload. none;
  marshal = λ j. ok "job";
  stream_name = "INVESTIGATIONS";
}

abbrev webhook : Request String
webhook = record {
  source = "grafana";
  headers = [];
  body = ok "{}";
  blob_key = "raw/1";
  new_id = new_id;
  trace_parent = "";
  trace_state = "";
}

webhook_calls : handle_webhook gateway webhook ≡ (
  accepted,
  put_raw_payload "raw/1" "{}"
      ∷ suppress_check "f1"
      ∷ publish "INVESTIGATIONS.new" "job"
      ∷ suppress_check "f2"
      ∷ count_suppress_hit
      ∷ count_webhook "grafana" "accepted"
      ∷ observe_duration "grafana"
      ∷ [],
)
unfolding handle_webhook
webhook_calls = refl

webhook-IsAccepted : IsAccepted gateway webhook grafana "{}" two_alerts
webhook-IsAccepted = record {
  known = refl;
  read = refl;
  verified = refl;
  stored = refl;
  decoded = refl;
}

handle_webhook-publishes_example :
    ((handle_webhook gateway webhook).0 ≡ (
      if any_refused gateway webhook (wanted gateway webhook 0 two_alerts)
      then internal_error
      else answer_of gateway webhook (count_skipped gateway webhook 0 two_alerts) two_alerts))
    × (payloads (handle_webhook gateway webhook).1
        ≡ until_refused gateway webhook (wanted gateway webhook 0 two_alerts))
handle_webhook-publishes_example = handle_webhook-publishes gateway webhook webhook-IsAccepted

handle_webhook-IsAccepted_example :
    (payloads (handle_webhook gateway webhook).1 ≡ [])
    ⊎ ((receiver : AlertReceiver String) × (body : String) × (alerts : List NormalizedAlert)
        × IsAccepted gateway webhook receiver body alerts)
handle_webhook-IsAccepted_example = handle_webhook-IsAccepted gateway webhook

-- An investigation of the first alert's fingerprint is under way, and the store fails for others.
abbrev under_way : ActiveInvestigation
under_way = record {
  id = "i1";
  status = "collecting";
  headline = "";
  confidence = 0;
  slack_channel_id = "c";
  slack_thread_ts = "1";
  created_at = ten;
  completed_at = none;
}

abbrev investigations : ℕ → InvestigationLookup String
investigations i = record {
  find_active_by_fingerprint =
      λ fp since. if str_eq fp "f1" then ok (some under_way) else err "no row";
  link_alert_to_investigation = λ i a. none;
}

handle_alert-gated_example :
    IsLinked investigations 0 (λ i. ten) gateway webhook 0 alert
    ⊎ IsPublished investigations 0 (λ i. ten) gateway webhook 0 alert "job"
handle_alert-gated_example =
    handle_alert-gated investigations 0 (λ i. ten) gateway webhook 0 alert "job" refl refl
