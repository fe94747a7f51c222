-- ===== src/Receivers/Normal.antt =====
-- The values that a receiver's alerts can have.
use sherlock.Prelude.{
  ℕ, suc, ◌≡◌, ◌⊎◌, inl, inr, refl, sym, String, Bool, true, false, List, [], ◌∷◌, Option, some,
  str_eq, str_eq_sound, if◌then◌else◌, Bool-cases, Result, ok, err, All, subst,
}
use sherlock.Contracts.{Attributes, NormalizedAlert, lookup}
use sherlock.Config.{ReceiversConfig}
use sherlock.Gateway.{AlertReceiver, find_receiver}
use sherlock.Receivers.{
  Inputs, WebhookAlert, map_status, map_severity, is_lower, status_firing, status_resolved,
  severity_critical, severity_warning, severity_info,
}
use sherlock.Receivers.Alertmanager
use sherlock.Receivers.Grafana
use sherlock.Receivers.Github
use sherlock.Receivers.Gitlab
use sherlock.Receivers.Registered.{Payloads, register_if, registered}

-- An alert of a source whose status and severity are among the constants of their types.
pub record IsNormal (source : String) (a : NormalizedAlert) : Type 0 where
  pub named : a.source ≡ source
  pub status : (a.status ≡ status_firing) ⊎ (a.status ≡ status_resolved)
  pub severity :
      (a.severity ≡ severity_critical)
      ⊎ (a.severity ≡ severity_warning)
      ⊎ (a.severity ≡ severity_info)

map_status-cases : (s : String) → (map_status s ≡ status_firing) ⊎ (map_status s ≡ status_resolved)
unfolding map_status
map_status-cases s = elim (Bool-cases (is_lower s "resolved")) [
  | inl over ↦ inr (rw over refl)
  | inr other ↦ inl (rw other refl)
]

map_severity-cases :
    (s : String)
    → (map_severity s ≡ severity_critical)
      ⊎ (map_severity s ≡ severity_warning)
      ⊎ (map_severity s ≡ severity_info)
unfolding map_severity
map_severity-cases s = elim (Bool-cases (is_lower s "critical")) [
  | inl critical ↦ inl (rw critical refl)
  | inr other ↦ elim (Bool-cases (is_lower s "info")) [
    | inl info ↦ inr (inr (rw (other, info) refl))
    | inr rest ↦ inr (inl (rw (other, rest) refl))
  ]
]

module _ {E : Type 0} (x : Inputs E) where
  -- What a decoder returns, if it returns alerts.
  abbrev Normal : String → Result E (List NormalizedAlert) → Type 0
  Normal source (err e) = Unit
  Normal source (ok alerts) = All (IsNormal source) alerts

  module _ (p : Payloads E) where
    alertmanager_loop-Normal :
        (payload : Alertmanager.AlertmanagerPayload) (i : ℕ) (alerts : List WebhookAlert)
        → All (IsNormal "alertmanager") (Alertmanager.decode_loop x p.alertmanager payload i alerts)
    unfolding Alertmanager.decode_loop
    alertmanager_loop-Normal payload i [] = tt
    alertmanager_loop-Normal payload i (a ∷ alerts) = (
      record {
        named = refl;
        status = map_status-cases a.status;
        severity = map_severity-cases (lookup "severity" a.labels);
      },
      alertmanager_loop-Normal payload (suc i) alerts,
    )

    grafana_loop-Normal :
        (payload : Grafana.GrafanaPayload) (i : ℕ) (alerts : List WebhookAlert)
        → All (IsNormal "grafana") (Grafana.decode_loop x p.grafana payload i alerts)
    unfolding Grafana.decode_loop
    grafana_loop-Normal payload i [] = tt
    grafana_loop-Normal payload i (a ∷ alerts) = (
      record {
        named = refl;
        status = map_status-cases a.status;
        severity = map_severity-cases (lookup "severity" a.labels);
      },
      grafana_loop-Normal payload (suc i) alerts,
    )

    alertmanager-Normal :
        (o : Result E Alertmanager.AlertmanagerPayload)
        → Normal "alertmanager" (Alertmanager.decoded x p.alertmanager o)
    alertmanager-Normal (err e) = tt
    alertmanager-Normal (ok payload) = alertmanager_loop-Normal payload 0 payload.alerts

    grafana-Normal :
        (o : Result E Grafana.GrafanaPayload) → Normal "grafana" (Grafana.decoded x p.grafana o)
    grafana-Normal (err e) = tt
    grafana-Normal (ok payload) = grafana_loop-Normal payload 0 payload.alerts

    github_deployment-Normal :
        (o : Result E Github.DeploymentEvent)
        → Normal "github" (Github.decode_deployment x p.github o)
    github_deployment-Normal (err e) = tt
    github_deployment-Normal (ok ev) =
        (record { named = refl; status = inl refl; severity = inr (inr refl) }, tt)

    -- A list of at most one alert.
    one-Normal :
        (source : String) (b : Bool) (a : NormalizedAlert)
        → IsNormal source a
        → All (IsNormal source) (if b then [] else a ∷ [])
    one-Normal source true a h = tt
    one-Normal source false a h = (h, tt)

    github_status-Normal :
        (o : Result E Github.DeploymentStatusEvent)
        → Normal "github" (Github.decode_deployment_status x p.github o)
    github_status-Normal (err e) = tt
    github_status-Normal (ok ev) =
        one-Normal "github" _ _
          (record { named = refl; status = inl refl; severity = inr (inl refl) })

    github_push-Normal :
        (o : Result E Github.PushEvent) → Normal "github" (Github.decode_push x p.github o)
    github_push-Normal (err e) = tt
    github_push-Normal (ok ev) =
        (record { named = refl; status = inl refl; severity = inr (inr refl) }, tt)

    gitlab_severity-cases :
        (b : Bool)
        → ((if b then severity_warning else severity_info) ≡ severity_critical)
          ⊎ ((if b then severity_warning else severity_info) ≡ severity_warning)
          ⊎ ((if b then severity_warning else severity_info) ≡ severity_info)
    gitlab_severity-cases true = inr (inl refl)
    gitlab_severity-cases false = inr (inr refl)

    gitlab_deployment-Normal :
        (o : Result E Gitlab.DeploymentHookEvent)
        → Normal "gitlab" (Gitlab.decode_deployment x p.gitlab o)
    gitlab_deployment-Normal (err e) = tt
    gitlab_deployment-Normal (ok ev) =
        one-Normal "gitlab" _ _
          (record { named = refl; status = inl refl; severity = gitlab_severity-cases _ })

    gitlab_push-Normal :
        (o : Result E Gitlab.PushHookEvent) → Normal "gitlab" (Gitlab.decode_push x p.gitlab o)
    gitlab_push-Normal (err e) = tt
    gitlab_push-Normal (ok ev) =
        (record { named = refl; status = inl refl; severity = inr (inr refl) }, tt)

    github-Normal :
        (headers : Attributes) (body : String)
        → Normal "github" (Github.decode x p.github headers body)
    unfolding Github.decode
    github-Normal headers body =
        let event = lookup "X-GitHub-Event" headers in
        elim (Bool-cases (str_eq event "deployment")) [
          | inl a ↦ rw a (github_deployment-Normal (p.github.deployment_event body))
          | inr a ↦ elim (Bool-cases (str_eq event "deployment_status")) [
            | inl b ↦ rw (a, b) (github_status-Normal (p.github.deployment_status_event body))
            | inr b ↦ elim (Bool-cases (str_eq event "push")) [
              | inl c ↦ rw (a, b, c) (github_push-Normal (p.github.push_event body))
              | inr c ↦ rw (a, b, c) tt
            ]
          ]
        ]

    gitlab-Normal :
        (headers : Attributes) (body : String)
        → Normal "gitlab" (Gitlab.decode x p.gitlab headers body)
    unfolding Gitlab.decode
    gitlab-Normal headers body =
        let event = lookup "X-Gitlab-Event" headers in
        elim (Bool-cases (str_eq event "Deployment Hook")) [
          | inl a ↦ rw a (gitlab_deployment-Normal (p.gitlab.deployment_hook body))
          | inr a ↦ elim (Bool-cases (str_eq event "Push Hook")) [
            | inl b ↦ rw (a, b) (gitlab_push-Normal (p.gitlab.push_hook body))
            | inr b ↦ rw (a, b) tt
          ]
        ]

    -- What a receiver decodes, if it is one of those that were registered.
    abbrev Decodes : String → Option (AlertReceiver E) → Type 0
    Decodes source found =
        (headers : Attributes) (body : String) (receiver : AlertReceiver E)
        → found ≡ some receiver
        → Normal source (receiver.decode headers body)

    register_if-Decodes :
        (source name : String) (enabled : Bool) (receiver : AlertReceiver E)
        (rest : List (String × AlertReceiver E))
        → ((headers : Attributes) (body : String) → Normal name (receiver.decode headers body))
        → Decodes source (find_receiver source rest)
        → Decodes source (find_receiver source (register_if enabled (name, receiver) rest))
    register_if-Decodes source name false receiver rest h k headers body found e =
        k headers body found e
    register_if-Decodes source name true receiver rest h k headers body found e =
        elim (Bool-cases (str_eq source name)) [
          | inl same ↦
              let is : receiver ≡ found = cc (rw same at e) in
              subst (λ q. Normal source (q.decode headers body)) is
                (subst (λ n. Normal n (receiver.decode headers body))
                  (sym (str_eq_sound source name same)) (h headers body))
          | inr other ↦ k headers body found (rw other at e)
        ]

    -- Every alert that a registered receiver decodes has the source that the receiver is registered
    -- under, a status that is firing or resolved, and a severity of critical, warning or info.
    pub decode-IsNormal :
        (c : ReceiversConfig) (source : String) (receiver : AlertReceiver E) (headers : Attributes)
        (body : String) (alerts : List NormalizedAlert)
        → find_receiver source (registered x p c) ≡ some receiver
        → receiver.decode headers body ≡ ok alerts
        → All (IsNormal source) alerts
    unfolding registered Alertmanager.receiver Grafana.receiver Github.receiver Gitlab.receiver
        Alertmanager.decode Grafana.decode
    decode-IsNormal c source receiver headers body alerts found e = subst (Normal source) e (
        register_if-Decodes source "grafana" c.grafana.enabled _ _
          (λ h b. grafana-Normal (p.grafana b))
          (register_if-Decodes source "alertmanager" c.alertmanager.enabled _ _
            (λ h b. alertmanager-Normal (p.alertmanager b))
            (register_if-Decodes source "github" c.github.enabled _ _ github-Normal (
              register_if-Decodes source "gitlab" c.gitlab.enabled _ _ gitlab-Normal
                (λ h b r none-found. absurd (cc)))))
          headers body receiver found)
