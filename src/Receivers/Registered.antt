-- ===== src/Receivers/Registered.antt =====
-- cmd/sherlock/main.go, where it registers the receivers that the configuration enables.
use sherlock.Prelude.{String, Bool, List, [], ◌∷◌, if◌then◌else◌, Result}
use sherlock.Config.{ReceiversConfig}
use sherlock.Gateway.{AlertReceiver}
use sherlock.Receivers.{Inputs}
use sherlock.Receivers.Alertmanager.{AlertmanagerPayload, receiver as alertmanager_receiver}
use sherlock.Receivers.Grafana.{GrafanaPayload, receiver as grafana_receiver}
use sherlock.Receivers.Github.{GithubEvents, receiver as github_receiver}
use sherlock.Receivers.Gitlab.{GitlabEvents, receiver as gitlab_receiver}

-- The JSON parsers of all payloads.
pub record Payloads (E : Type 0) : Type 0 where
  pub alertmanager : String → Result E AlertmanagerPayload
  pub grafana : String → Result E GrafanaPayload
  pub github : GithubEvents E
  pub gitlab : GitlabEvents E

-- What a `Register` under a condition adds to the receivers.
abbrev pub register_if {ℓ} : {A : Type ℓ} → Bool → A → List A → List A
register_if enabled a rest = if enabled then a ∷ rest else rest

module _ {E : Type 0} (x : Inputs E) (payloads : Payloads E) where
  -- The receivers of code hosts, which are registered after the other two.
  abbrev pub repo_receivers : ReceiversConfig → List (String × AlertReceiver E)
  repo_receivers c =
      register_if c.github.enabled
        ("github", github_receiver x payloads.github c.github.webhook_secret)
        (register_if c.gitlab.enabled
          ("gitlab", gitlab_receiver x payloads.gitlab c.gitlab.secret_token) [])

  -- Each receiver under its source.
  unfoldable pub registered : ReceiversConfig → List (String × AlertReceiver E)
  registered c =
      register_if c.grafana.enabled
        ("grafana", grafana_receiver x payloads.grafana c.grafana.hmac_secret)
        (register_if c.alertmanager.enabled
          ("alertmanager", alertmanager_receiver x payloads.alertmanager c.alertmanager.secret)
          (repo_receivers c))
