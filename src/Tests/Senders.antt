-- ===== src/Tests/Senders.antt =====
-- A failed deployment that GitHub reports, under strict authentication.
use sherlock.Prelude.{
  ℕ, ◌≡◌, ◌⊎◌, refl, String, true, false, List, [], ◌∷◌, none, some, ok, err, All, pos,
}
use sherlock.Contracts.{NormalizedAlert}
use sherlock.Config.{Config, ReceiversConfig}
use sherlock.Config.Defaults.{defaults}
use sherlock.Config.Validation.{validate}
use sherlock.Config.Usable.{HasSecrets}
use sherlock.Gateway.{Gateway, Request, handle_webhook, find_receiver, unauthorized}
use sherlock.Gateway.Wanted.{payloads}
use sherlock.Receivers.{Inputs}
use sherlock.Receivers.Github
use sherlock.Receivers.Registered.{Payloads, registered}
use sherlock.Receivers.Signed.{IsSigned, handle_webhook-IsSigned}
use sherlock.Receivers.Normal.{IsNormal, decode-IsNormal}
use sherlock.Tests.{new_id, ten}
use sherlock.Tests.Settings.{exact}

abbrev inputs : Inputs String
inputs = record {
  hmac_hex = λ secret body. "00";
  sha256_hex = λ s. s;
  new_id = new_id;
  now = ten;
  print = λ n. "n";
  errorf = λ message. message;
  wrapf = λ message e. message;
}

abbrev deployment : Github.Deployment
deployment = record {
  id = pos 1;
  sha = "0123456789";
  ref = "main";
  environment = "prod";
  description = "";
  url = "";
  creator_login = "dev";
}

abbrev cart : Github.Repository
cart = record { full_name = "acme/cart"; name = "cart"; html_url = "https://git/acme/cart" }

abbrev failed : Github.DeploymentStatusEvent
failed = record {
  deployment_status = record {
    id = pos 2;
    state = "Failure";
    description = "out of memory";
    target_url = "";
    environment_url = "";
    deployment = deployment;
  };
  deployment = deployment;
  repository = cart;
  sender_login = "dev";
}

abbrev parsers : Payloads String
parsers = record {
  alertmanager = λ body. err "no payload";
  grafana = λ body. err "no payload";
  github = record {
    deployment_event = λ body. err "no payload";
    deployment_status_event = λ body. ok failed;
    push_event = λ body. err "no payload";
  };
  gitlab = record {
    deployment_hook = λ body. err "no payload";
    push_hook = λ body. err "no payload";
  };
}

abbrev receivers : ReceiversConfig
receivers = record {
  grafana = record { enabled = true; hmac_secret = "g" };
  alertmanager = record { enabled = false; secret = "" };
  github = record { enabled = true; webhook_secret = "h" };
  gitlab = record { enabled = false; secret_token = "" };
}

abbrev strict : Config ℕ
strict = record (defaults exact) {
  server = record (defaults exact).server { strict_webhook_auth = true };
  receivers = receivers;
}

strict-validates : validate strict ≡ none
unfolding validate defaults
strict-validates = refl

abbrev gateway : Gateway String
gateway = record {
  receivers = registered inputs parsers receivers;
  put_blob = λ k b. none;
  dedup = none;
  has_notifier = false;
  suppress = none;
  publisher = λ i subject payload. none;
  marshal = λ j. ok "job";
  stream_name = "INVESTIGATIONS";
}

abbrev report : Request String
report = record {
  source = "github";
  headers = ("X-Hub-Signature-256", "sha256=00") ∷ ("X-GitHub-Event", "deployment_status") ∷ [];
  body = ok "{}";
  blob_key = "raw/1";
  new_id = new_id;
  trace_parent = "";
  trace_state = "";
}

handle_webhook-IsSigned_example :
    (payloads (handle_webhook gateway report).1 ≡ [])
    ⊎ ((body : String) × (report.body ≡ ok body)
        × HasSecrets receivers
        × IsSigned inputs receivers "github" report.headers body)
handle_webhook-IsSigned_example =
    handle_webhook-IsSigned inputs parsers strict gateway report strict-validates refl refl

-- The report is published, and one with another signature is refused.
report_published : payloads (handle_webhook gateway report).1 ≡ "job" ∷ []
unfolding handle_webhook registered Github.receiver Github.verify Github.decode
report_published = refl

forged_refused :
    (handle_webhook gateway
      (record report { headers = ("X-Hub-Signature-256", "sha256=01") ∷ [] })).0
    ≡ unauthorized
unfolding handle_webhook registered Github.receiver Github.verify
forged_refused = refl

abbrev decoded : List NormalizedAlert
decoded = Github.deployment_status_alert inputs parsers.github failed "failure" ∷ []

github_found :
    find_receiver "github" (registered inputs parsers receivers)
    ≡ some (Github.receiver inputs parsers.github "h")
unfolding registered
github_found = refl

failed_decoded : (Github.receiver inputs parsers.github "h").decode report.headers "{}" ≡ ok decoded
unfolding Github.receiver Github.decode
failed_decoded = refl

decode-IsNormal_example : All (IsNormal "github") decoded
decode-IsNormal_example =
    decode-IsNormal inputs parsers receivers "github" (Github.receiver inputs parsers.github "h")
      report.headers "{}" decoded github_found failed_decoded
