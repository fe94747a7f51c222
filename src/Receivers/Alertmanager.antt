-- ===== src/Receivers/Alertmanager.antt =====
-- internal/receiver/alertmanager/receiver.go.
use Prim.Native.String.{◌++◌ as str_append}
use sherlock.Prelude.{
  ℕ, suc, ℤ, String, List, [], ◌∷◌, ◌++◌, Option, none, some, str_eq, if◌then◌else◌, Result, ok,
  err,
}
use sherlock.Contracts.{Attributes, NormalizedAlert, lookup}
use sherlock.Gateway.{AlertReceiver}
use sherlock.Receivers.{
  Inputs, WebhookAlert, map_status, map_severity, or_text, extract_entity_hints, build_links,
  end_of,
}

pub record AlertmanagerPayload : Type 0 where
  pub version : String
  pub group_key : String
  pub truncated_alerts : ℤ
  pub status : String
  pub receiver : String
  pub group_labels : Attributes
  pub common_labels : Attributes
  pub common_annotations : Attributes
  pub external_url : String
  pub alerts : List WebhookAlert

module _ {E : Type 0} (x : Inputs E) (unmarshal : String → Result E AlertmanagerPayload) where
  unfoldable pub verify : String → Attributes → String → Option E
  verify secret headers body =
      if str_eq secret ""
      then none
      else if str_eq (lookup "Authorization" headers) (str_append "Bearer " secret)
      then none
      else some (x.errorf "invalid or missing bearer token")

  -- A label of the alert hides the common one of its name.
  abbrev pub normalized : AlertmanagerPayload → ℕ → WebhookAlert → NormalizedAlert
  normalized p i a = record {
    id = x.new_id i;
    source = "alertmanager";
    tenant_id = "";
    status = map_status a.status;
    severity = map_severity (lookup "severity" a.labels);
    title = or_text (lookup "summary" a.annotations) (lookup "alertname" a.labels);
    summary = lookup "description" a.annotations;
    fingerprint = a.fingerprint;
    group_key = p.group_key;
    starts_at = a.starts_at;
    ends_at = end_of a.ends_at;
    labels = a.labels;
    annotations = a.annotations;
    entity_hints = extract_entity_hints (a.labels ++ p.common_labels);
    links = build_links a;
    raw_ref = "";
  }

  unfoldable pub decode_loop : AlertmanagerPayload → ℕ → List WebhookAlert → List NormalizedAlert
  unfolding map_status map_severity extract_entity_hints build_links
  decode_loop p i [] = []
  decode_loop p i (a ∷ alerts) = normalized p i a ∷ decode_loop p (suc i) alerts

  abbrev pub decoded : Result E AlertmanagerPayload → Result E (List NormalizedAlert)
  decoded (err e) = err (x.wrapf "unmarshalling alertmanager payload" e)
  decoded (ok p) = ok (decode_loop p 0 p.alerts)

  unfoldable pub decode : String → Result E (List NormalizedAlert)
  unfolding decode_loop
  decode body = decoded (unmarshal body)

  unfoldable pub receiver : String → AlertReceiver E
  unfolding verify decode
  receiver secret = record { verify = verify secret; decode = λ headers body. decode body }
