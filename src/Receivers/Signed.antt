-- ===== src/Receivers/Signed.antt =====
-- Which webhooks get through where strict authentication is configured.
use Prim.Native.String.{◌++◌ as str_append}
use sherlock.Prelude.{
  ◌≡◌, ◌≢◌, ◌⊎◌, inl, inr, refl, sym, ap, ◌∙◌, String, Bool, true, false, List, [], Option, none,
  some, str_eq, str_eq_sound, if◌then◌else◌, Bool-cases, ok,
}
use sherlock.Contracts.{Attributes, lookup}
use sherlock.Config.{Config, ReceiversConfig}
use sherlock.Config.Validation.{validate}
use sherlock.Config.Usable.{HasSecrets, validate-eq-none_iff}
use sherlock.Gateway.{AlertReceiver, Gateway, Request, find_receiver, handle_webhook}
use sherlock.Gateway.Wanted.{payloads as payloads_of}
use sherlock.Gateway.Answers.{handle_webhook-IsAccepted}
use sherlock.Matches.{after_prefix}
use sherlock.Receivers.{Inputs}
use sherlock.Receivers.Alertmanager.{
  receiver as alertmanager_receiver, verify as verify_alertmanager,
}
use sherlock.Receivers.Grafana.{receiver as grafana_receiver, verify as verify_grafana}
use sherlock.Receivers.Github.{receiver as github_receiver, verify as verify_github, verify_hex}
use sherlock.Receivers.Gitlab.{receiver as gitlab_receiver, verify as verify_gitlab}
use sherlock.Receivers.Registered.{Payloads, register_if, registered}

-- A test that must fail for the rest to answer.
if-none :
    {A : Type 0} (b : Bool) (a : A) (rest : Option A)
    → (if b then some a else rest) ≡ none
    → (b ≡ false) × (rest ≡ none)
if-none true a rest h = absurd (cc)
if-none false a rest h = (refl, h)

-- A test that passes, or an error.
if-passed : {A : Type 0} (b : Bool) (a : A) → (if b then none else some a) ≡ none → b ≡ true
if-passed true a h = refl
if-passed false a h = absurd (cc)

-- A test that is skipped where there is no secret.
if-given :
    {A : Type 0} (secret : String) (rest : Option A)
    → secret ≢ ""
    → (if str_eq secret "" then none else rest) ≡ none
    → rest ≡ none
if-given secret rest n h = elim (Bool-cases (str_eq secret "")) [
  | inl blank ↦ absurd (n (str_eq_sound secret "" blank))
  | inr given ↦ rw given at h
]

strict_secrets :
    {strict : Bool} {c : ReceiversConfig}
    → (strict ≡ false) ⊎ HasSecrets c
    → strict ≡ true
    → HasSecrets c
strict_secrets (inl off) on = absurd (cc)
strict_secrets (inr secrets) on = secrets

module _ {E : Type 0} (x : Inputs E) where
  -- The proof of its sender's secret that a webhook of a source carries.
  abbrev pub IsSigned : ReceiversConfig → String → Attributes → String → Type 0
  IsSigned c source headers body =
      ((source ≡ "grafana")
        × (lookup "X-Grafana-Signature" headers ≡ x.hmac_hex c.grafana.hmac_secret body))
      ⊎ ((source ≡ "alertmanager")
          × (lookup "Authorization" headers ≡ str_append "Bearer " c.alertmanager.secret))
      ⊎ ((source ≡ "github")
          × (after_prefix "sha256=" (lookup "X-Hub-Signature-256" headers)
              ≡ some (x.hmac_hex c.github.webhook_secret body)))
      ⊎ ((source ≡ "gitlab") × (lookup "X-Gitlab-Token" headers ≡ c.gitlab.secret_token))

  module _ (p : Payloads E) (secret : String) (given : secret ≢ "") (headers : Attributes)
      (body : String) where
    verify_grafana_lem :
        verify_grafana x p.grafana secret headers body ≡ none
        → lookup "X-Grafana-Signature" headers ≡ x.hmac_hex secret body
    unfolding verify_grafana
    verify_grafana_lem h =
        let sent = if-none _ _ _ (if-given secret _ given h) in
        str_eq_sound _ _ (if-passed _ _ sent.1)

    verify_alertmanager_lem :
        verify_alertmanager x p.alertmanager secret headers body ≡ none
        → lookup "Authorization" headers ≡ str_append "Bearer " secret
    unfolding verify_alertmanager
    verify_alertmanager_lem h = str_eq_sound _ _ (if-passed _ _ (if-given secret _ given h))

    verify_gitlab_lem :
        verify_gitlab x p.gitlab secret headers body ≡ none
        → lookup "X-Gitlab-Token" headers ≡ secret
    unfolding verify_gitlab
    verify_gitlab_lem h =
        let sent = if-none _ _ _ (if-given secret _ given h) in
        str_eq_sound _ _ (if-passed _ _ sent.1)

    verify_hex_lem :
        (o : Option String)
        → verify_hex x p.github secret body o ≡ none
        → o ≡ some (x.hmac_hex secret body)
    verify_hex_lem none h = absurd (cc)
    verify_hex_lem (some sig) h = ap some (str_eq_sound _ _ (if-passed _ _ h))

    verify_github_lem :
        verify_github x p.github secret headers body ≡ none
        → after_prefix "sha256=" (lookup "X-Hub-Signature-256" headers)
          ≡ some (x.hmac_hex secret body)
    unfolding verify_github
    verify_github_lem h =
        let sent = if-none _ _ _ (if-given secret _ given h) in verify_hex_lem _ sent.1

  -- What a webhook has passed whose receiver is one of those that were registered.
  abbrev Passed : ReceiversConfig → String → Option (AlertReceiver E) → Type 0
  Passed c source found =
      (headers : Attributes) (body : String) (receiver : AlertReceiver E)
      → found ≡ some receiver
      → receiver.verify headers body ≡ none
      → IsSigned c source headers body

  register_if-Passed :
      (c : ReceiversConfig) (source name : String) (enabled : Bool) (receiver : AlertReceiver E)
      (rest : List (String × AlertReceiver E))
      → (source ≡ name
          → enabled ≡ true
          → (headers : Attributes) (body : String) → receiver.verify headers body ≡ none
          → IsSigned c source headers body)
      → Passed c source (find_receiver source rest)
      → Passed c source (find_receiver source (register_if enabled (name, receiver) rest))
  register_if-Passed c source name false receiver rest h k headers body found e v =
      k headers body found e v
  register_if-Passed c source name true receiver rest h k headers body found e v =
      elim (Bool-cases (str_eq source name)) [
        | inl same ↦
            let is : receiver ≡ found = cc (rw same at e) in
            h (str_eq_sound source name same) refl headers body
              (ap (λ q. q.verify headers body) is ∙ v)
        | inr other ↦ k headers body found (rw other at e) v
      ]

  given_secret :
      {enabled : Bool} {secret : String}
      → (enabled ≡ false) ⊎ (secret ≢ "")
      → enabled ≡ true
      → secret ≢ ""
  given_secret (inl off) on = absurd (cc)
  given_secret (inr given) on = given

  registered-Passed :
      (p : Payloads E) (c : ReceiversConfig) (source : String)
      → HasSecrets c
      → Passed c source (find_receiver source (registered x p c))
  unfolding registered grafana_receiver alertmanager_receiver github_receiver gitlab_receiver
  registered-Passed p c source h =
      register_if-Passed c source "grafana" c.grafana.enabled _ _
        (λ e on headers body v.
          inl (e, verify_grafana_lem p _ (given_secret h.grafana on) headers body v))
        (register_if-Passed c source "alertmanager" c.alertmanager.enabled _ _
          (λ e on headers body v.
            inr (
              inl (e, verify_alertmanager_lem p _ (given_secret h.alertmanager on) headers body v)))
          (register_if-Passed c source "github" c.github.enabled _ _
            (λ e on headers body v.
              inr (inr (inl (e, verify_github_lem p _ (given_secret h.github on) headers body v))))
            (register_if-Passed c source "gitlab" c.gitlab.enabled _ _
              (λ e on headers body v.
                inr
                  (inr (inr (e, verify_gitlab_lem p _ (given_secret h.gitlab on) headers body v))))
              (λ headers body receiver e v. absurd (cc)))))

  module _ {F : Type 0} (p : Payloads E) (c : Config F) (g : Gateway E) (r : Request E) where
    -- Under a configuration that passes validation with strict authentication, and with the receivers
    -- that it enables, a webhook puts something on the queue only if its body was read and it carries
    -- what its source's secret, which is not empty, asks for: a signature of the body, or the secret.
    pub handle_webhook-IsSigned :
        validate c ≡ none
        → c.server.strict_webhook_auth ≡ true
        → g.receivers ≡ registered x p c.receivers
        → (payloads_of (handle_webhook g r).1 ≡ [])
          ⊎ ((body : String) × (r.body ≡ ok body)
              × HasSecrets c.receivers
              × IsSigned c.receivers r.source r.headers body)
    handle_webhook-IsSigned v strict known = elim (handle_webhook-IsAccepted g r) [
      | inl nothing ↦ inl nothing
      | inr (receiver, body, alerts, a) ↦
          let secrets = strict_secrets ((validate-eq-none_iff c).0 v).secrets strict in
          inr (
            body,
            a.read,
            secrets,
            registered-Passed p c.receivers r.source secrets r.headers body receiver
                (ap (find_receiver r.source) (sym known) ∙ a.known) a.verified,
          )
    ]
